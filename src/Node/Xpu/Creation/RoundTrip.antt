-- ===== src/Node/Xpu/Creation/RoundTrip.antt =====
-- The context that `saveXpuContext` of pkg/util/xpuinitiator.go saves, read back by
-- `tryGetXpuContext` and by the constructors of the backends.
use spdk_csi.Prelude.{
  ℕ, ◌^◌, ◌%◌, ◌<◌, ◌≡◌, refl, ap, ◌∙◌, [], ◌∷◌, String, ◌=ₛ◌, eq_iff, arith, if◌then◌else◌,
}
use spdk_csi.Text.{Str}
use spdk_csi.Text.Decimal.{format_nat, parse_uint}
use spdk_csi.Text.Decimal.RoundTrip.{parse_uint-format_nat}
use spdk_csi.Effect.{ok, pure, on_error}
use spdk_csi.Effect.Triple.{Ends, Triple-on_error, Triple-strengthen}
use spdk_csi.Target.Nvmf.{Map}
use spdk_csi.Controller.Message.{get, put}
use spdk_csi.Node.Host.{read_file, Host}
use spdk_csi.Node.Context.{Codec, xpu_context_file_name, lookup_xpu_context, stash_xpu_context}
use spdk_csi.Node.RoundTrip.{
  ReadsBack, Decodes, Holds, bind-run, on_error-run, stash_context-Holds, converted,
}
use spdk_csi.Node.Xpu.{PciEndpoint, XpuInitiator, Sysfs, XpuState, Xpu}
use spdk_csi.Node.Xpu.World.{Triple-on_world}
use spdk_csi.Node.Xpu.Lifecycle.{xpu_context, save_xpu_context}
use spdk_csi.Node.Xpu.Creation.{Fields, restored, try_get_xpu_context}

pub get-put :
    (m : Map) (k j : String) (v : Str) → get (put m k v) j ≡ (if k =ₛ j then v else get m j)
unfolding get put
get-put [] k j v = refl
get-put ((i, w) ∷ m) k j v = ground (arith, eq_iff k j, eq_iff i k, eq_iff i j, get-put m k j v)

-- The numbers of a function have 32 bits.
pub record IsUint32 (pe : PciEndpoint) : Type 0 where
  pub pf : pe.pf_id < 2 ^ 32
  pub vf : pe.vf_id < 2 ^ 32

parse_uint32 : (n : ℕ) → n < 2 ^ 32 → parse_uint (format_nat n) % 2 ^ 32 ≡ n
parse_uint32 n h = rw (parse_uint-format_nat n (omega arith)) (omega arith)

module _ {W : Type 0} (host : Host W) (codec : Codec) (sysfs : Sysfs W) (backend : XpuInitiator W)
    (xpu : Xpu) where
  abbrev pub fields_of : XpuState W → Fields
  fields_of s = record {
    device_path = s.device_path;
    endpoint = s.endpoint;
    bdfs = s.bdfs;
    world = tt;
  }

  restored-xpu_context :
      (m : Map) (s : XpuState W)
      → IsUint32 s.endpoint
      → restored (xpu_context host codec sysfs backend xpu m s) ≡ fields_of s
  unfolding restored xpu_context
  restored-xpu_context m s h =
      simp (get-put, parse_uint32 s.endpoint.pf_id h.pf, parse_uint32 s.endpoint.vf_id h.vf)

  module _ (param : W → Map) (param_is : (w : W) → backend.get_param w ≡ pure (param w) w) where
    abbrev pub saved : XpuState W → Map
    saved s = xpu_context host codec sysfs backend xpu (param s.world) s

    restored_at :
        (s : XpuState W) (w : W)
        → IsUint32 s.endpoint
        → Decodes codec (saved s)
        → Holds host codec
            (host.join (get xpu.volume_context "stagingParentPath") xpu_context_file_name)
            (codec.marshal (saved s))
            w
        → (try_get_xpu_context host codec xpu.volume_context w).0 ≡ ok (fields_of s, saved s)
    unfolding try_get_xpu_context lookup_xpu_context
    restored_at s w h d held =
        let folder = get xpu.volume_context "stagingParentPath" in
        let w' = (host.perform (read_file (host.join folder xpu_context_file_name)) w).1 in
        let lookup = lookup_xpu_context host codec folder in
        ap (λ x. x.0)
          (bind-run (on_error _ lookup) w w' (saved s) _ (
            on_error-run lookup w w' (saved s) _
              (converted host codec (saved s) folder xpu_context_file_name w d held)))
        ∙ ap (λ f. ok (f, saved s)) (restored-xpu_context (param s.world) s h)

    -- On a machine where a written file reads back and for a context whose JSON decodes to it,
    -- after saveXpuContext succeeds tryGetXpuContext reads the device path, the function ids,
    -- which have 32 bits, and the addresses as they were, and the same context for the backend.
    pub save-restores :
        (s : XpuState W)
        → IsUint32 s.endpoint
        → ReadsBack host
        → Decodes codec (saved s)
        → Ends
            (λ _ t.
              (try_get_xpu_context host codec xpu.volume_context t.world).0
              ≡ ok (fields_of s, saved s))
            (λ _ _. Unit)
            (save_xpu_context host codec sysfs backend xpu s)
    unfolding save_xpu_context stash_xpu_context
    save-restores s h r d = rw (param_is s.world) (
        (Triple-on_error _ _ (
            Triple-strengthen (λ _ t held. restored_at s t.world h d held)
              (Triple-on_world _ (
                stash_context-Holds host codec (saved s)
                  (get xpu.volume_context "stagingParentPath") xpu_context_file_name r)))).at
          s tt)
