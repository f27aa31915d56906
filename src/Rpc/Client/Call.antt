-- ===== src/Rpc/Client/Call.antt =====
-- When `call` succeeds, and what it does to the state.
use spdk_csi.Prelude.Int.{pos, negsuc}
use spdk_csi.Prelude.{ℕ, zero, suc, ◌<◌, ◌≡◌, ◌↔◌, refl, none, arith}
use spdk_csi.Text.{Str}
use spdk_csi.Effect.{ok}
use spdk_csi.Rpc.Message.{
  Request, method, malformed, decoded, HttpReply, no_response, response, Net,
}
use spdk_csi.Rpc.Client.{Client, Conn, Called, next_id, http_request, check_reply, call}

-- A reply that answers the request: below 400, well formed, with the same id and error code 0.
abbrev pub Answers : ℕ → HttpReply → Type 0
Answers id (response status (decoded id' (pos zero) m p)) = (status < 400) × (id' ≡ id)
Answers id _ = ⊥

-- A reply has no error exactly when it answers the request.
pub check_reply-none_iff :
    (name : Str) (id : ℕ) (reply : HttpReply)
    → ((check_reply name id reply).error ≡ none) ↔ Answers id reply
unfolding check_reply
check_reply-none_iff name id (no_response m) = (λ h. cc, λ h. absurd h)
check_reply-none_iff name id (response status (malformed m p)) = (λ h. ground arith, λ h. absurd h)
check_reply-none_iff name id (response status (decoded id' (pos zero) m p)) =
    (λ h. ground arith, λ h. ground arith)
check_reply-none_iff name id (response status (decoded id' (pos (suc n)) m p)) =
    (λ h. ground arith, λ h. absurd h)
check_reply-none_iff name id (response status (decoded id' (negsuc n) m p)) =
    (λ h. ground arith, λ h. absurd h)

module _ {W : Type 0} (net : Net W) (client : Client) where
  abbrev pub reply_to : Request → Conn W → HttpReply
  reply_to req s = (net.send (http_request client (next_id s.rpc_id) req) s.world).0

  -- call always comes back; it reports no error exactly when the reply to the request posted with
  -- the next id has a status below 400, decodes, carries that id and has error code 0; the counter
  -- is left at that id and the transport flag as it was.
  pub call_succeeds_iff :
      (req : Request) (s : Conn W)
      → (r : Called) × ((call net client req s).0 ≡ ok r)
        × ((r.error ≡ none) ↔ Answers (next_id s.rpc_id) (reply_to req s))
        × ((call net client req s).1.rpc_id ≡ next_id s.rpc_id)
        × ((call net client req s).1.trans_created ≡ s.trans_created)
  unfolding call
  call_succeeds_iff req s = (
    check_reply (method req) (next_id s.rpc_id) (reply_to req s),
    refl,
    check_reply-none_iff (method req) (next_id s.rpc_id) (reply_to req s),
    refl,
    refl,
  )
