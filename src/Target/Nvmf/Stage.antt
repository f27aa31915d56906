-- ===== src/Target/Nvmf/Stage.antt =====
-- How far a volume's subsystem has come, by the recorded exchanges, and what `PublishVolume` and
-- `UnpublishVolume` leave behind.
pub mod Publish
pub mod Unpublish
use spdk_csi.Prelude.{
  ℕ, ◌≡◌, refl, ap, ◌∙◌, ◌⊎◌, inl, inr, true, false, Option, none, some, [], ◌∷◌, Bool-cases,
  if◌then◌else◌,
}
use spdk_csi.Text.{Str, str_eq}
use spdk_csi.Text.Laws.{str_eq_refl}
use spdk_csi.Effect.{
  Error, Outcome, ok, err, panic, invalid_parameters, volume_deleted, Exec, Result, good, bad, pure,
  check, ignore, ◌>>=◌,
}
use spdk_csi.Effect.Keeps.{Keeps}
use spdk_csi.Effect.Triple.{
  Ends, Triple, Either, Triple-attempt, Triple-bind, Triple-Keeps, Triple-pure, Triple-raise,
  Triple-ignore, Triple-any, Triple-weaken, Triple-strengthen,
}
use spdk_csi.Rpc.Message.{
  Request, nvmf_create_subsystem, nvmf_subsystem_add_ns, nvmf_subsystem_add_listener,
  nvmf_subsystem_remove_ns, nvmf_delete_subsystem, nvmf_subsystem_get_listeners, listeners_of,
  Payload, Net,
}
use spdk_csi.Rpc.Client.{Client, Conn, call, call_unit, error_matches, is_volume_created}
use spdk_csi.Rpc.Client.Methods.{is_volume_created-Keeps}
use spdk_csi.Rpc.Log.{Log, logged, log_of}
use spdk_csi.Target.Nvmf.{
  NvmfNode, get_volume_nqn, has_own_listener, is_volume_published, create_subsystem,
  subsystem_add_ns, subsystem_add_listener, subsystem_remove_ns, delete_subsystem, create_transport,
  add_listener, add_namespace, export_volume, publish_volume, unpublish_volume,
}
use spdk_csi.Target.Nvmf.Methods.{is_volume_published-Keeps, create_transport-Keeps}

-- No subsystem, an empty one, one with the volume as its namespace, one that is also listened on.
pub data Stage : Type 0 where
  absent created filled exported : Stage

abbrev fill : Stage → Stage
fill created = filled
fill st = st

abbrev open_up : Stage → Stage
open_up filled = exported
open_up st = st

abbrev empty_out : Stage → Stage
empty_out filled = created
empty_out exported = created
empty_out st = st

-- One exchange: a request that was answered takes effect on its own subsystem, and a request to
-- delete it counts as soon as it is sent.
abbrev pub advance : Str → Request → Option Error → Stage → Stage
advance nqn (nvmf_create_subsystem n _ _ _) none st = if str_eq n nqn then created else st
advance nqn (nvmf_subsystem_add_ns n _) none st = if str_eq n nqn then fill st else st
advance nqn (nvmf_subsystem_add_listener n _) none st = if str_eq n nqn then open_up st else st
advance nqn (nvmf_subsystem_remove_ns n _) none st = if str_eq n nqn then empty_out st else st
advance nqn (nvmf_delete_subsystem n) _ st = if str_eq n nqn then absent else st
advance nqn _ _ st = st

abbrev pub stage : Str → Log → Stage
stage nqn [] = absent
stage nqn (x ∷ log) = advance nqn x.request x.outcome.error (stage nqn log)

-- The newest exchange is the target's answer that lists the node's own listener for the volume.
abbrev pub IsListed : NvmfNode → Str → Log → Type 0
IsListed node id [] = ⊥
IsListed node id (x ∷ log) =
    (x.request ≡ nvmf_subsystem_get_listeners (get_volume_nqn id))
    × (x.outcome.error ≡ none)
    × (has_own_listener node (listeners_of x.outcome.result) ≡ true)

-- The newest exchange is the target's answer that knows no own listener for the volume: it refuses
-- the subsystem as unknown, or lists its listeners without an error and without an own one.
abbrev pub IsUnlisted : NvmfNode → Str → Log → Type 0
IsUnlisted node id [] = ⊥
IsUnlisted node id (x ∷ log) =
    (x.request ≡ nvmf_subsystem_get_listeners (get_volume_nqn id))
    × ((error_matches x.outcome.error invalid_parameters ≡ true)
        ⊎ ((x.outcome.error ≡ none)
            × (has_own_listener node (listeners_of x.outcome.result) ≡ false)))

-- The newest exchange is the target's consent to deleting the volume's subsystem.
abbrev pub IsDeleted : Str → Log → Type 0
IsDeleted id [] = ⊥
IsDeleted id (x ∷ log) =
    (x.request ≡ nvmf_delete_subsystem (get_volume_nqn id)) × (x.outcome.error ≡ none)

abbrev pub At : {W : Type 0} → Str → Stage → Conn (W × Log) → Type 0
At nqn st s = stage nqn (log_of s) ≡ st

-- From one stage to another when the action returns, and to a third when it fails.
abbrev Moves : {W B : Type 0} → Str → Exec (Conn (W × Log)) B → Stage → Stage → Stage → Type 0
Moves nqn m st a b = Triple (At nqn st) m (λ _ s. At nqn a s) (λ _ s. At nqn b s)

module _ {W : Type 0} (net : Net W) (client : Client) (nqn : Str) where
  call-Triple :
      {E : Error → Conn (W × Log) → Type 0} (req : Request) (st : Stage)
      → Triple
          (At nqn st)
          (call (logged net) client req)
          (λ r s. At nqn (advance nqn req r.error st) s)
          E
  unfolding call
  call-Triple req st = record { at = λ s h. ap (advance nqn req _) h }

  -- A request that moves no subsystem.
  call-Keeps :
      (req : Request) (st : Stage)
      → ((e : Option Error) → advance nqn req e st ≡ st)
      → Keeps (At nqn st) (call (logged net) client req)
  unfolding call
  call-Keeps req st q = record { at = λ s h. ap (advance nqn req _) h ∙ q _ }

  check-Triple :
      (req : Request) (st a b : Stage) (e : Option Error)
      → advance nqn req none st ≡ a
      → ((x : Error) → advance nqn req (some x) st ≡ b)
      → Triple {S = Conn (W × Log)}
          (At nqn (advance nqn req e st))
          (check e)
          (λ _ s. At nqn a s)
          (λ _ s. At nqn b s)
  check-Triple req st a b none p q = record { at = λ s h. h ∙ p }
  check-Triple req st a b (some x) p q = record { at = λ s h. h ∙ q x }

  call_unit-Triple :
      (req : Request) (st a b : Stage)
      → advance nqn req none st ≡ a
      → ((x : Error) → advance nqn req (some x) st ≡ b)
      → Triple
          (At nqn st)
          (call_unit (logged net) client req)
          (λ _ s. At nqn a s)
          (λ _ s. At nqn b s)
  unfolding call_unit
  call_unit-Triple req st a b p q =
      Triple-bind {R = λ r s. At nqn (advance nqn req r.error st) s} _ _ (call-Triple req st)
        (λ r. check-Triple req st a b r.error p q)

module _ {W : Type 0} (net : Net W) (client : Client) (node : NvmfNode) (id : Str) where
  -- The methods that ask, and the transport, leave the stage alone.
  transport-Keeps :
      (st : Stage) → Keeps (At (get_volume_nqn id) st) (create_transport (logged net) client node)
  transport-Keeps st =
      create_transport-Keeps (logged net) client node id (λ s h. h)
        (call-Keeps net client (get_volume_nqn id) _ st (elim [ none ↦ refl | some x ↦ refl ]))

  exists-Keeps :
      (st : Stage) → Keeps (At (get_volume_nqn id) st) (is_volume_created (logged net) client id)
  exists-Keeps st =
      is_volume_created-Keeps (logged net) client id
        (call-Keeps net client (get_volume_nqn id) _ st (elim [ none ↦ refl | some x ↦ refl ]))

  published-Keeps :
      (st : Stage)
      → Keeps (At (get_volume_nqn id) st) (is_volume_published (logged net) client node id)
  published-Keeps st =
      is_volume_published-Keeps (logged net) client node id
        (call-Keeps net client (get_volume_nqn id) _ st (elim [ none ↦ refl | some x ↦ refl ]))

  -- What the newest exchange says of the result `r`.
  abbrev Answered : Option Error → Payload → Conn (W × Log) → Type 0
  Answered e p s =
      (e ≡ none → has_own_listener node (listeners_of p) ≡ true → IsListed node id (log_of s))
      × (e ≡ none → has_own_listener node (listeners_of p) ≡ false → IsUnlisted node id (log_of s))

  call_published-Triple :
      {E : Error → Conn (W × Log) → Type 0} (st : Stage)
      → Triple
          (At (get_volume_nqn id) st)
          (call (logged net) client (nvmf_subsystem_get_listeners (get_volume_nqn id)))
          (λ r s.
            At (get_volume_nqn id) st s
            × Answered r.error r.result s
            × (error_matches r.error invalid_parameters ≡ true → IsUnlisted node id (log_of s)))
          E
  unfolding call
  call_published-Triple st = record {
    at = λ s h. (h, (λ p q. (refl, p, q), λ p q. (refl, inr (p, q))), λ q. (refl, inl q));
  }

  published-Triple :
      (st : Stage)
      → Triple
          (At (get_volume_nqn id) st)
          (is_volume_published (logged net) client node id)
          (λ b s.
            At (get_volume_nqn id) st s
            × (b ≡ true → IsListed node id (log_of s))
            × (b ≡ false → IsUnlisted node id (log_of s)))
          (λ _ s. At (get_volume_nqn id) st s)
  unfolding is_volume_published
  published-Triple st = Triple-bind _ _ (call_published-Triple st) λ r.
      elim (Bool-cases (error_matches r.error invalid_parameters)) [
        | inl unknown ↦ rw unknown (Triple-pure false (λ s h. (h.0, λ e. cc, λ _. h.2 refl)))
        | inr known ↦ rw known (record { at = λ s h. (answered r.error r.result).at s (h.0, h.1) })
      ]
    where
      answered :
          (e : Option Error) (p : Payload)
          → Triple
              (λ s. At (get_volume_nqn id) st s × Answered e p s)
              (check e >>= λ _. pure (has_own_listener node (listeners_of p)))
              (λ b s.
                At (get_volume_nqn id) st s
                × (b ≡ true → IsListed node id (log_of s))
                × (b ≡ false → IsUnlisted node id (log_of s)))
              (λ _ s. At (get_volume_nqn id) st s)
      answered none p = record { at = λ s h. (h.0, λ q. h.1.0 refl q, λ q. h.1.1 refl q) }
      answered (some e) p = record { at = λ s h. h.0 }
