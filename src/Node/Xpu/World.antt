-- ===== src/Node/Xpu/World.antt =====
-- What holds of the world below an `xpuInitiator`.
use spdk_csi.Effect.{Error, Outcome, ok, err, panic, Exec}
use spdk_csi.Effect.Triple.{Ends, Triple}
use spdk_csi.Node.Xpu.{XpuState, on_world}

module _ {W A : Type 0} (Q : A → W → Type 0) (E : Error → W → Type 0) where
  on_world-Ends :
      (r : Outcome A) (w : W) (s : XpuState W)
      → Ends Q E (r, w)
      → Ends (λ a t. Q a t.world) (λ e t. E e t.world) (r, record s { world = w })
  on_world-Ends (ok a) w s h = h
  on_world-Ends (err e) w s h = h
  on_world-Ends panic w s h = tt

module _ {W A : Type 0} {P : W → Type 0} {Q : A → W → Type 0} {E : Error → W → Type 0} where
  pub Triple-on_world :
      (m : Exec W A)
      → Triple P m Q E
      → Triple (λ s. P s.world) (on_world m) (λ a t. Q a t.world) (λ e t. E e t.world)
  Triple-on_world m t = record {
    at = λ s h. on_world-Ends Q E (m s.world).0 (m s.world).1 s (t.at s.world h);
  }
