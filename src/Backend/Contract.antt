-- ===== src/Backend/Contract.antt =====
-- What a backend of `xpuInitiator` promises, whatever its protocol.
use spdk_csi.Prelude.{◌⊎◌}
use spdk_csi.Effect.Triple.{Triple}
use spdk_csi.Node.Xpu.{ConnectParams, XpuInitiator}

-- The stages of a device: nothing made yet, all made, all removed, and in between. `Held` says that
-- what is left on the service is what the object names, and `Refused` that a removal failed.
pub record Stages (S : Type 0) : Type 1 where
  pub Fresh : S → Type 0
  pub Up : S → Type 0
  pub Gone : S → Type 0
  pub Held : S → Type 0
  pub Refused : Type 0

pub record Contract {S : Type 0} (stages : Stages S) (b : XpuInitiator S) : Type 0 where
  -- `Connect` makes all or takes back what it made; if a removal is refused, what is left is named.
  pub connect_all :
      (p : ConnectParams)
      → Triple stages.Fresh
          (b.connect p)
          (λ _ s. stages.Up s)
          (λ _ s. stages.Held s × (stages.Refused ⊎ stages.Fresh s))
  -- `Disconnect` removes all that is left, also after an attempt that failed.
  pub disconnect_all :
      Triple stages.Held b.disconnect (λ _ s. stages.Gone s) (λ _ s. stages.Held s × stages.Refused)
  pub Up-Held : (s : S) → stages.Up s → stages.Held s
