-- ===== src/Node/Xpu/Creation.antt =====
-- `NewSpdkCsiXpuInitiator` of pkg/util/xpuinitiator.go: what is read back of the saved context, and
-- the choice of the backend.
pub mod RoundTrip
pub mod Backends
use spdk_csi.Prelude.{
  ℕ, ◌+◌, ◌-◌, ◌*◌, ◌%◌, ◌^◌, Option, none, some, List, [], ◌∷◌, ◌++◌, Bool, ◌&&◌, leb,
  if◌then◌else◌,
}
use spdk_csi.Text.{Str, str, str_eq}
use spdk_csi.Text.Decimal.{parse_uint}
use spdk_csi.Effect.{
  message, wrapped, Result, good, bad, Exec, pure, raise, attempt, on_error, ◌>>=◌, ◌>>◌,
}
use spdk_csi.Target.Nvmf.{Map}
use spdk_csi.Controller.Message.{get}
use spdk_csi.Node.Host.{Host}
use spdk_csi.Node.Context.{Codec, lookup_xpu_context}
use spdk_csi.Node.Xpu.{XpuTargetType, XpuConfig, XpuState, Xpu, parse_spdk_xpu_target_type}
use spdk_csi.Backend.Opi.Creation.{OpiInitiator, new_spdk_csi_opi_initiator}
use spdk_csi.Backend.Sma.Creation.{SmaInitiator, new_spdk_csi_sma_initiator}

-- The fields of an initiator, whose world is elsewhere.
abbrev pub Fields : Type 0
Fields = XpuState (Unit {0})

-- What `tryGetXpuContext` sets.
unfoldable pub restored : Map → Fields
restored m = record {
  device_path = get m "devicePath";
  endpoint = record {
    pf_id = parse_uint (get m "pfID") % 2 ^ 32;
    vf_id = parse_uint (get m "vfID") % 2 ^ 32;
  };
  bdfs = record { pf_bdf = get m "pfBdf"; vf_bdf = get m "vfBdf" };
  world = tt;
}

abbrev unset : Fields
unset = record {
  device_path = [];
  endpoint = record { pf_id = 0; vf_id = 0 };
  bdfs = record { pf_bdf = []; vf_bdf = [] };
  world = tt;
}

-- The backend's fields.
pub data Backend : Type 0 where
  opi : OpiInitiator (Unit {0}) → Backend
  sma : SmaInitiator (Unit {0}) → Backend

pub record CreatedXpu : Type 0 where
  pub info : Xpu
  pub fields : Fields
  pub backend : Backend

abbrev as_opi : Result (OpiInitiator (Unit {0})) → Result Backend
as_opi (good i) = good (opi i)
as_opi (bad e) = bad e

abbrev as_sma : Result (SmaInitiator (Unit {0})) → Result Backend
as_sma (good i) = good (sma i)
as_sma (bad e) = bad e

-- The switch over the backends.
unfoldable pub new_backend : (Str → Result Str) → Map → XpuTargetType → Option Map → Result Backend
new_backend parse volume_context t stored =
    if str_eq t.backend (str "sma")
    then as_sma (new_spdk_csi_sma_initiator stored tt parse volume_context t.tr_type)
    else if str_eq t.backend (str "opi")
    then as_opi (new_spdk_csi_opi_initiator stored tt t.tr_type)
    else bad (message (str "unknown target type: \"" ++ (t.backend ++ str "\"")))

module _ {W : Type 0} (host : Host W) (codec : Codec) where
  unfoldable pub try_get_xpu_context : Map → Exec W (Fields × Map)
  try_get_xpu_context volume_context = do
    m ←
        on_error (wrapped (str "loadXPUContext() error"))
          (lookup_xpu_context host codec (get volume_context "stagingParentPath"))
    pure (restored m, m)

  abbrev lifted : {A : Type 0} → Result A → Exec W A
  lifted (good a) = pure a
  lifted (bad e) = raise e

  module _ (parse : Str → Result Str) (volume_context : Map) (config : XpuConfig) where
    abbrev created : XpuTargetType → Fields → Option Map → Exec W CreatedXpu
    created t fields stored = do
      b ← lifted (new_backend parse volume_context t stored)
      pure (record {
        info = record { target_info = t; volume_context = volume_context; xpu_config = config };
        fields = fields;
        backend = b;
      })

    -- The saved context is used if it can be read.
    abbrev with_context : XpuTargetType → Result (Fields × Map) → Exec W CreatedXpu
    with_context t (good (f, m)) = created t f (some m)
    with_context t (bad e) = created t unset none

    unfoldable pub new_spdk_csi_xpu_initiator : Exec W CreatedXpu
    new_spdk_csi_xpu_initiator = do
      t ← lifted (parse_spdk_xpu_target_type config.target_type)
      r ← attempt (try_get_xpu_context volume_context)
      with_context t r
