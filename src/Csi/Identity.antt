-- ===== src/Csi/Identity.antt =====
-- The driver object: what it reports of itself, and the requests that it validates.
use spdk_csi.Prelude.{
  ℕ, ◌≡◌, ◌↔◌, refl, Bool, true, false, Option, none, some, List, [], Any, ◌⊎◌, inl, inr, ◌==◌,
  ==_iff, Bool-cases, if◌then◌else◌,
}
use spdk_csi.Text.{Str, str, str_eq}
use spdk_csi.Effect.{Error, status, unavailable, invalid_argument, Result, good, bad}
use spdk_csi.Csi.Driver.{
  CsiDriver, rpc_unknown, new_csi_driver, has_number, validate_controller_service_request,
  add_controller_service_capabilities, add_volume_capability_access_modes, get_plugin_info,
}
use spdk_csi.Controller.Capabilities.{has_number-Any, Any-has_number}

-- A driver that NewCSIDriver makes has what it was given, and no capabilities and modes.
pub new_csi_driver-made :
    (name version node_id : Str) (d : CsiDriver)
    → new_csi_driver name version node_id ≡ some d
    → record { name = name; node_id = node_id; version = version; caps = []; modes = [] } ≡ d
unfolding new_csi_driver
new_csi_driver-made name version node_id d =
    cases (str_eq name []) (str_eq node_id []) (str_eq version [])
  where
    cases :
        (a b c : Bool)
        → let made : CsiDriver = record {
          name = name;
          node_id = node_id;
          version = version;
          caps = [];
          modes = [];
        } in
          (if a then none else if b then none else if c then none else some made) ≡ some d
          → made ≡ d
    cases true b c h = cc
    cases false true c h = cc
    cases false false true h = cc
    cases false false false h = cc

-- GetPluginInfo of a driver that NewCSIDriver made returns the name and the version it was made
-- with, whatever capabilities and modes it is given.
pub new_csi_driver-get_plugin_info :
    (name version node_id : Str) (d : CsiDriver) (caps modes : List ℕ)
    → new_csi_driver name version node_id ≡ some d
    → get_plugin_info
        (add_volume_capability_access_modes (add_controller_service_capabilities d caps) modes)
      ≡ good (name, version)
unfolding new_csi_driver get_plugin_info add_volume_capability_access_modes
    add_controller_service_capabilities
new_csi_driver-get_plugin_info name version node_id d caps modes =
    cases (str_eq name []) (str_eq node_id []) (str_eq version []) refl refl
  where
    cases :
        (a b c : Bool)
        → str_eq name [] ≡ a
        → str_eq version [] ≡ c
        → (if a
            then none
            else if b
            then none
            else if c
            then none
            else some (record {
              name = name;
              node_id = node_id;
              version = version;
              caps = [];
              modes = [];
            }))
          ≡ some d
        → let r : Result (Str × Str) =
            if str_eq d.name []
            then bad (status unavailable (str "Driver name not configured"))
            else if str_eq d.version []
            then bad (status unavailable (str "Driver is missing version"))
            else good (d.name, d.version) in
          r ≡ good (name, version)
    cases true b c p q h = cc
    cases false true c p q h = cc
    cases false false true p q h = cc
    cases false false false p q h =
        let e : record { name = name; node_id = node_id; version = version; caps = []; modes = [] }
            ≡ d =
          cc in
        rw (← e) (rw (p, q) refl)

module _ (capability_text : ℕ → Str) where
  -- ValidateControllerServiceRequest accepts a capability exactly when it is the unknown one or
  -- one that the driver was given, and otherwise returns InvalidArgument with the capability's
  -- name.
  pub validate_controller_service_request_iff :
      (d : CsiDriver) (caps : List ℕ) (c : ℕ)
      → let r =
          validate_controller_service_request capability_text
            (add_controller_service_capabilities d caps)
            c in
        ((r ≡ none) ↔ ((c ≡ rpc_unknown) ⊎ Any (λ m. c ≡ m) caps))
        × ((r ≡ none) ⊎ (r ≡ some (status invalid_argument (capability_text c))))
  unfolding validate_controller_service_request add_controller_service_capabilities
  validate_controller_service_request_iff d caps c = elim (Bool-cases (c == rpc_unknown)) [
    | inl e ↦ rw e ((λ _. inl ((==_iff c rpc_unknown).0 e), λ _. refl), inl refl)
    | inr e ↦ rw e (listed (has_number c caps) refl e)
  ]
    where
      listed :
          (b : Bool)
          → has_number c caps ≡ b
          → (c == rpc_unknown) ≡ false
          → let r : Option Error =
              if b then none else some (status invalid_argument (capability_text c)) in
            ((r ≡ none) ↔ ((c ≡ rpc_unknown) ⊎ Any (λ m. c ≡ m) caps))
            × ((r ≡ none) ⊎ (r ≡ some (status invalid_argument (capability_text c))))
      listed true p e = ((λ _. inr (has_number-Any c caps p), λ _. refl), inl refl)
      listed false p e = (
        (
          λ h. cc,
          elim [ inl q ↦ cc ((==_iff c rpc_unknown).1 q) | inr a ↦ cc (Any-has_number c caps a) ],
        ),
        inr refl,
      )
