-- ===== src/Target/Iscsi/Answers.antt =====
-- What the target has said when the publishing methods of `nodeISCSI` report success.
use spdk_csi.Prelude.{
  ◌≡◌, refl, Bool, true, false, Option, none, some, [], ◌∷◌, ◌⊎◌, inl, inr, ◌++◌, if◌then◌else◌,
}
use spdk_csi.Text.{Str}
use spdk_csi.Effect.{Error, volume_deleted, message, pure, raise, check}
use spdk_csi.Effect.Triple.{
  Triple, Triple-bind, Triple-pure, Triple-raise, Triple-any, Triple-strengthen,
}
use spdk_csi.Rpc.Message.{
  Request, iscsi_get_target_nodes, iscsi_create_target_node, iscsi_delete_target_node, flag_of,
  target_nodes_of, Net,
}
use spdk_csi.Rpc.Client.{Client, Conn, Called, call, is_volume_created}
use spdk_csi.Rpc.Log.{Log, logged, log_of}
use spdk_csi.Target.Iscsi.{
  IscsiNode, iqn_prefix_name, has_alias, is_volume_published, call_flag, create_target_node,
  delete_target_node, create_portal_group, create_initiator_group, publish_volume, unpublish_volume,
}

-- The newest exchange is this request, with an outcome of this kind.
abbrev pub Last : Request → (Called → Type 0) → Log → Type 0
Last req A [] = ⊥
Last req A (x ∷ log) = (x.request ≡ req) × A x.outcome

-- The target said yes.
abbrev pub Agreed : Called → Type 0
Agreed r = (r.error ≡ none) × (flag_of r.result ≡ true)

-- The target listed its nodes, and one of them has the alias, or none.
abbrev pub Lists : Str → Bool → Called → Type 0
Lists id b r = (r.error ≡ none) × (has_alias id (target_nodes_of r.result) ≡ b)

Last-map :
    {A B : Called → Type 0} (req : Request) (log : Log)
    → ((r : Called) → A r → B r)
    → Last req A log
    → Last req B log
Last-map req [] f h = h
Last-map req (x ∷ log) f h = (h.0, f x.outcome h.1)

module _ {W : Type 0} (net : Net W) (client : Client) where
  -- What `call` returns is the newest outcome.
  call-Last :
      (req : Request)
      → Triple
          (λ _. Unit)
          (call (logged net) client req)
          (λ r s. Last req (λ o. o ≡ r) (log_of s))
          (λ _ _. Unit)
  unfolding call
  call-Last req = record { at = λ s h. (refl, refl) }

  check-Last :
      (req : Request) (r : Called) (e : Option Error)
      → r.error ≡ e
      → Triple {S = Conn (W × Log)}
          (λ s. Last req (λ o. o ≡ r) (log_of s))
          (check e)
          (λ _ s. Last req (λ o. (o ≡ r) × (r.error ≡ none)) (log_of s))
          (λ _ _. Unit)
  check-Last req r none e = Triple-pure tt (λ s h. Last-map req (log_of s) (λ o q. (q, e)) h)
  check-Last req r (some x) e = Triple-raise x (λ s h. tt)

  call_flag-Agreed :
      (node : IscsiNode) (req : Request) (failure : Str)
      → Triple
          (λ _. Unit)
          (call_flag (logged net) client node req failure)
          (λ _ s. Last req Agreed (log_of s))
          (λ _ _. Unit)
  unfolding call_flag
  call_flag-Agreed node req failure =
      Triple-bind (call (logged net) client req) _ (call-Last req) λ r.
        Triple-bind (check r.error) _ (check-Last req r r.error refl)
          (λ _. flagged r (flag_of r.result) refl)
    where
      flagged :
          (r : Called) (b : Bool)
          → flag_of r.result ≡ b
          → Triple {S = Conn (W × Log)}
              (λ s. Last req (λ o. (o ≡ r) × (r.error ≡ none)) (log_of s))
              (if b then pure tt else raise (message failure))
              (λ _ s. Last req Agreed (log_of s))
              (λ _ _. Unit)
      flagged r true e =
          Triple-pure tt (λ s h. Last-map req (log_of s) (λ o q. rw (q.0) (q.1, e)) h)
      flagged r false e = Triple-raise _ (λ s h. tt)

  module _ (node : IscsiNode) where
    is_volume_published-Lists :
        (id : Str)
        → Triple
            (λ _. Unit)
            (is_volume_published (logged net) client node id)
            (λ b s. Last iscsi_get_target_nodes (Lists id b) (log_of s))
            (λ _ _. Unit)
    unfolding is_volume_published
    is_volume_published-Lists id =
        Triple-bind (call (logged net) client iscsi_get_target_nodes) _
          (call-Last iscsi_get_target_nodes)
          λ r. Triple-bind (check r.error) _ (check-Last iscsi_get_target_nodes r r.error refl) λ _.
            Triple-pure _
              λ s h. Last-map iscsi_get_target_nodes (log_of s) (λ o q. rw (q.0) (q.1, refl)) h

    -- The request for the volume's target node, with the volume as its only LUN.
    abbrev pub node_request : Str → Request
    node_request id = iscsi_create_target_node 0 id id id 1 1 true 64

    -- When PublishVolume of nodeISCSI succeeds, the target's last answer is a list of nodes with
    -- the volume's alias, or its consent to the target node that serves the volume.
    pub publish_volume-answer :
        (id : Str)
        → Triple
            (λ _. Unit)
            (publish_volume (logged net) client node id)
            (λ _ s.
              Last iscsi_get_target_nodes (Lists id true) (log_of s)
              ⊎ Last (node_request id) Agreed (log_of s))
            (λ _ _. Unit)
    unfolding publish_volume create_target_node
    publish_volume-answer id =
        Triple-bind {R = λ _ _. Unit} (is_volume_created (logged net) client id) _ (Triple-any _)
          (elim [
            | false ↦ Triple-raise volume_deleted (λ s h. tt)
            | true ↦
                Triple-bind (is_volume_published (logged net) client node id) _
                  (is_volume_published-Lists id)
                  (elim [
                    | true ↦ Triple-pure tt (λ s h. inl h)
                    | false ↦
                        Triple-bind {R = λ _ _. Unit} (create_portal_group (logged net) client node)
                          _ (Triple-any _)
                          λ _.
                            Triple-bind {R = λ _ _. Unit}
                              (create_initiator_group (logged net) client node) _ (Triple-any _)
                              λ _.
                                Triple-strengthen (λ _ _ h. inr h)
                                  (call_flag-Agreed node (node_request id) _)
                  ])
          ])

    -- When UnpublishVolume of nodeISCSI succeeds, the target's last answer is a list of nodes
    -- without the volume's alias, or its consent to deleting the volume's target node.
    pub unpublish_volume-answer :
        (id : Str)
        → Triple
            (λ _. Unit)
            (unpublish_volume (logged net) client node id)
            (λ _ s.
              Last iscsi_get_target_nodes (Lists id false) (log_of s)
              ⊎ Last (iscsi_delete_target_node (iqn_prefix_name ++ id)) Agreed (log_of s))
            (λ _ _. Unit)
    unfolding unpublish_volume delete_target_node
    unpublish_volume-answer id =
        Triple-bind {R = λ _ _. Unit} (is_volume_created (logged net) client id) _ (Triple-any _)
          (elim [
            | false ↦ Triple-raise volume_deleted (λ s h. tt)
            | true ↦
                Triple-bind (is_volume_published (logged net) client node id) _
                  (is_volume_published-Lists id)
                  (elim [
                    | false ↦ Triple-pure tt (λ s h. inl h)
                    | true ↦
                        Triple-strengthen (λ _ _ h. inr h)
                          (record {
                            at = λ s _.
                                (call_flag-Agreed node
                                    (iscsi_delete_target_node (iqn_prefix_name ++ id)) _).at
                                  s tt;
                          })
                  ])
          ])
