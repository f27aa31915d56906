-- ===== src/Node/Sysfs.antt =====
-- The lookups of pkg/util/util.go in sysfs: NVMe and virtio-blk devices, and free functions of an
-- xPU.
pub mod Functions
pub mod Detection
use spdk_csi.Prelude.{
  ℕ, zero, suc, ◌+◌, ◌-◌, ◌*◌, ◌/◌, ◌%◌, ◌^◌, ◌≡◌, refl, Bool, true, false, not, ◌&&◌, Option, none,
  some, List, [], ◌∷◌, ◌++◌, length, ltb, ◌==◌, if◌then◌else◌,
}
use spdk_csi.Text.{Str, str, str_eq, trim_space}
use spdk_csi.Text.Decimal.{format_nat}
use spdk_csi.Text.Hex.{hex2}
use spdk_csi.Text.DeviceName.{find_device_name, strip_controller}
use spdk_csi.Effect.{
  Error, not_exist, deadline_exceeded, message, wrapped, is_not_exist, Result, good, bad, Exec,
  pure, raise, crash, attempt, ignore, on_error, ◌>>=◌, ◌>>◌,
}
use spdk_csi.Node.Host.{
  glob, sleep, stat, read_file, read_dir, read_link, paths_of, bytes_of, Answer, Host, act,
}
use spdk_csi.Node.Initiator.{wait_for_device_ready}
use spdk_csi.Node.Xpu.{PciIds, PciEndpoint, PciBdfs, XpuConfig, Sysfs, is_kvm}

-- A name that was found, or the error of the last attempt.
abbrev pub name_of : Result Str → Str
name_of (good n) = n
name_of (bad e) = []

abbrev pub Visited : Type 0
Visited = Option (List Str)

unfoldable pub has_path : Str → List Str → Bool
has_path p [] = false
has_path p (q ∷ l) = let rest = has_path p l in if str_eq p q then true else rest

-- `ignorePaths`, which may be nil.
unfoldable pub is_visited : Str → Visited → Bool
unfolding has_path
is_visited p none = false
is_visited p (some l) = has_path p l

abbrev pub mark : Str → Visited → Visited
mark p none = none
mark p (some l) = some (p ∷ l)

-- The pattern of `CheckIfNvmeDeviceExists`.
abbrev pub uuid_paths : Str
uuid_paths = str "/sys/bus/pci/devices/*/nvme/nvme*/nvme*n*/uuid"

-- `0000:%02x:%02x`
abbrev pub kvm_slot : ℕ → ℕ → Str
kvm_slot p v = str "0000:" ++ (hex2 p ++ (str ":" ++ hex2 v))

abbrev pub slot_pattern : ℕ → ℕ → Str
slot_pattern p v = str "/sys/bus/pci/devices/" ++ (kvm_slot p v ++ str ".*")

abbrev pub kvm_function : ℕ → ℕ → PciEndpoint × PciBdfs
kvm_function p v = (
  record { pf_id = ((p - 1) * 32 + v) % 2 ^ 32; vf_id = 0 },
  record { pf_bdf = []; vf_bdf = kvm_slot p v ++ str ".0" },
)

module _ {W : Type 0} (host : Host W) where
  -- `getNvmeDeviceName`
  unfoldable pub get_nvme_device_name_at : Str → Str → Exec W Str
  get_nvme_device_name_at path nvme_model = do
    content ← act host (read_file path)
    if str_eq (trim_space (bytes_of content)) nvme_model
        then pure (strip_controller (find_device_name path))
        else raise (message (str "does not match"))

  abbrev pub found_or :
      Str → Visited → Exec W (Result Str × Visited) → Exec W (Result Str × Visited)
  found_or n visited rest = if str_eq n [] then rest else pure (good n, visited)

  -- The loop of `CheckIfNvmeDeviceExists`.
  unfoldable pub check_paths : Str → List Str → Visited → Exec W (Result Str × Visited)
  check_paths nvme_model [] visited = pure (bad not_exist, visited)
  check_paths nvme_model (p ∷ ps) visited =
      let skip = check_paths nvme_model ps visited in
      let next = check_paths nvme_model ps (mark p visited) in
      if is_visited p visited then skip else do
        r ← attempt (get_nvme_device_name_at p nvme_model)
        found_or (name_of r) (mark p visited) next

  -- `CheckIfNvmeDeviceExists`: its results, and the paths that were visited.
  unfoldable pub check_if_nvme_device_exists : Str → Visited → Exec W (Result Str × Visited)
  check_if_nvme_device_exists nvme_model visited = do
    r ← attempt (act host (glob uuid_paths))
    elim r [
      | bad e ↦ pure (bad (wrapped (str "obtain uuid files error") e), visited)
      | good a ↦ check_paths nvme_model (paths_of a) visited
    ]

  abbrev pub detected_or : Result Str → Exec W Str → Exec W Str
  detected_or (good n) rest = pure n
  detected_or (bad e) rest = do ignore (act host (sleep 1)); rest

  -- The rounds that are left of the loop of `detectNvmeDeviceName`.
  unfoldable pub detect_loop : ℕ → Str → Visited → Exec W Str
  detect_loop zero nvme_model visited = raise deadline_exceeded
  detect_loop (suc n) nvme_model visited = do
    r ← check_if_nvme_device_exists nvme_model visited
    detected_or r.0 (detect_loop n nvme_model r.1)

  unfoldable pub detect_nvme_device_name : Str → Exec W Str
  detect_nvme_device_name nvme_model = detect_loop 20 nvme_model (some [])

  abbrev nvme_glob : Str → Str
  nvme_glob bdf = str "/sys/bus/pci/devices/" ++ (bdf ++ str "/nvme/nvme*/nvme*n*/uuid")

  abbrev not_found : Error → Error
  not_found = wrapped (str "failed to find nvme device name")

  -- The device by the address of its function, or by its model if there is no address.
  abbrev device_name : Str → Str → Exec W Str
  device_name nvme_model bdf =
      if str_eq bdf [] then on_error not_found (detect_nvme_device_name nvme_model) else do
        path ←
            on_error (wrapped (str "failed find device at "))
              (wait_for_device_ready host (nvme_glob bdf) 20)
        on_error not_found (get_nvme_device_name_at path nvme_model)

  -- `GetNvmeDeviceName`
  unfoldable pub get_nvme_device_name : Str → Str → Exec W Str
  get_nvme_device_name nvme_model bdf = do
    n ← device_name nvme_model bdf
    wait_for_device_ready host (str "/dev/" ++ n) 20

  abbrev virtio_glob : Str → Str
  virtio_glob bdf = str "/sys/bus/pci/devices/" ++ (bdf ++ str "/virtio*/block")

  -- The text of the list of entries in the error, which the code prints, is left out.
  abbrev the_device : Str → List Str → Exec W Str
  the_device pattern (n ∷ []) = wait_for_device_ready host (str "/dev/" ++ n) 20
  the_device pattern _ =
      raise (message (str "the deviceParentDirPath (" ++ (pattern ++ str ") has wrong content")))

  -- `GetVirtioBlkDeviceName`
  unfoldable pub get_virtio_blk_device_name : Str → Bool → Exec W Str
  get_virtio_blk_device_name bdf wait = do
    path ← wait_for_device_ready host (virtio_glob bdf) (if wait then 20 else 0)
    entries ← act host (read_dir path)
    the_device (virtio_glob bdf) (paths_of entries)

  -- `strings.TrimSpace` of a file in the directory of a PCI device.
  abbrev id_file : Str → Str → Exec W Str
  id_file device name = do
    content ← act host (read_file (host.join device name))
    pure (trim_space (bytes_of content))

  abbrev pci_devices_path : Str
  pci_devices_path = str "/sys/bus/pci/devices"

  -- Whether a device has the ids; the files are read in turn until one cannot be read.
  unfoldable pub has_ids : PciIds → Str → Exec W Bool
  has_ids ids bdf = do
    let device = host.join pci_devices_path bdf
    class ← id_file device (str "class")
    vendor ← id_file device (str "vendor")
    dev ← id_file device (str "device")
    pure (str_eq class ids.class_id && (str_eq vendor ids.vendor_id && str_eq dev ids.device_id))

  abbrev taken : Str → Result Bool → List Str → List Str
  taken bdf (good true) l = bdf ∷ l
  taken bdf _ l = l

  unfoldable pub matching_devices : PciIds → List Str → Exec W (List Str)
  matching_devices ids [] = pure []
  matching_devices ids (bdf ∷ l) = do
    r ← attempt (has_ids ids bdf)
    rest ← matching_devices ids l
    pure (taken bdf r rest)

  -- `findPciDevicesByPciIDs`
  unfoldable pub find_pci_devices_by_pci_ids : PciIds → Exec W (List Str)
  find_pci_devices_by_pci_ids ids = do
    r ← attempt (act host (read_dir pci_devices_path))
    elim r [ good a ↦ matching_devices ids (paths_of a) | bad e ↦ pure [] ]

  abbrev sysfs_failure : Error → Error
  sysfs_failure = wrapped (str "sysfs failure")

  -- The slot is free if nothing matches its pattern.
  abbrev free_or :
      ℕ → ℕ → List Str → Exec W (PciEndpoint × PciBdfs) → Exec W (PciEndpoint × PciBdfs)
  free_or p v [] rest = pure (kvm_function p v)
  free_or p v (d ∷ ds) rest = rest

  -- The slots that are left on a bridge, and what follows when all are taken.
  unfoldable pub slots_loop :
      ℕ → ℕ → ℕ → Exec W (PciEndpoint × PciBdfs) → Exec W (PciEndpoint × PciBdfs)
  slots_loop zero p v next = next
  slots_loop (suc n) p v next = do
    found ← on_error sysfs_failure (act host (glob (slot_pattern p v)))
    free_or p v (paths_of found) (slots_loop n p (v + 1) next)

  -- The bridges that are left.
  unfoldable pub bridges_loop : ℕ → ℕ → Exec W (PciEndpoint × PciBdfs)
  bridges_loop zero p = raise not_exist
  bridges_loop (suc n) p = slots_loop 32 p 0 (bridges_loop n (p + 1))

  -- `getAvailableFunctionsKvm`, for the number of bridges that was counted at start-up.
  unfoldable pub get_available_functions_kvm : ℕ → Exec W (PciEndpoint × PciBdfs)
  get_available_functions_kvm kvm_pci_bridge_count =
      if kvm_pci_bridge_count == 0
      then raise (message (str "no valid kvm bridges"))
      else bridges_loop kvm_pci_bridge_count 1

  abbrev counted : Str → Result Answer → Str × ℕ → Str × ℕ
  counted bdf (good _) (pf, n) = (pf, n + 1)
  counted bdf (bad e) (pf, n) = ((if is_not_exist e then bdf else pf), n)

  abbrev device_path : Str → Str → Str
  device_path bdf name = str "/sys/bus/pci/devices/" ++ (bdf ++ name)

  -- The loop of `getXpuPfBdfAndVfCount`.
  unfoldable pub count_functions : List Str → Str × ℕ → Exec W (Str × ℕ)
  count_functions [] acc = pure acc
  count_functions (bdf ∷ l) acc = do
    r ← attempt (act host (stat (device_path bdf (str "/physfn"))))
    count_functions l (counted bdf r acc)

  unfoldable pub get_xpu_pf_bdf_and_vf_count : PciIds → Exec W (Str × ℕ)
  get_xpu_pf_bdf_and_vf_count ids = do
    bdfs ← find_pci_devices_by_pci_ids ids
    count_functions bdfs ([], 0)

  -- `link[3:]`, which panics on a shorter text.
  abbrev cut_link : Str → Exec W Str
  cut_link (a ∷ b ∷ c ∷ s) = pure s
  cut_link _ = crash

  abbrev virtual_or :
      Str → ℕ → Str → List Str → Exec W (PciEndpoint × PciBdfs) → Exec W (PciEndpoint × PciBdfs)
  virtual_or pf vf bdf [] rest =
      pure (record { pf_id = 0; vf_id = vf % 2 ^ 32 }, record { pf_bdf = pf; vf_bdf = bdf })
  virtual_or pf vf bdf (d ∷ ds) rest = rest

  -- The virtual functions that are left.
  unfoldable pub virtual_loop : ℕ → Str → ℕ → Exec W (PciEndpoint × PciBdfs)
  virtual_loop zero pf vf = raise not_exist
  virtual_loop (suc n) pf vf = do
    link ←
        on_error sysfs_failure
          (act host (read_link (device_path pf (str "/virtfn" ++ format_nat (vf - 1)))))
    bdf ← cut_link (bytes_of link)
    found ← on_error sysfs_failure (act host (glob (device_path bdf (str "/nvme"))))
    virtual_or pf vf bdf (paths_of found) (virtual_loop n pf (vf + 1))

  -- `getAvailableFunctionsXpu`
  unfoldable pub get_available_functions_xpu : PciIds → Exec W (PciEndpoint × PciBdfs)
  get_available_functions_xpu ids = do r ← get_xpu_pf_bdf_and_vf_count ids; virtual_loop r.1 r.0 1

  -- `GetAvailableFunctions`
  unfoldable pub get_available_functions : ℕ → XpuConfig → Exec W (PciEndpoint × PciBdfs)
  get_available_functions kvm_pci_bridge_count config =
      if is_kvm config.pci_ids
      then get_available_functions_kvm kvm_pci_bridge_count
      else get_available_functions_xpu config.pci_ids

  -- The calls that `xpuInitiator` makes of these functions.
  abbrev pub host_sysfs : ℕ → Sysfs W
  host_sysfs kvm_pci_bridge_count = record {
    get_available_functions = get_available_functions kvm_pci_bridge_count;
    check_if_nvme_device_exists =
        λ nvme_model. check_if_nvme_device_exists nvme_model none >>= λ r. pure r.0;
    get_nvme_device_name = get_nvme_device_name;
    get_virtio_blk_device_name = λ bdf. get_virtio_blk_device_name bdf true;
  }
