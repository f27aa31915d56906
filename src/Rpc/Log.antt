-- ===== src/Rpc/Log.antt =====
-- A network that records what passes through it: each request with what `call` made of its
-- reply, the newest first. Statements about what a method sends are about this record.
use spdk_csi.Prelude.{◌≡◌, refl, List, ◌∷◌}
use spdk_csi.Effect.{ok}
use spdk_csi.Rpc.Message.{Request, method, Net}
use spdk_csi.Rpc.Client.{Client, Conn, Called, next_id, http_request, check_reply, call}

pub record Exchange : Type 0 where
  pub request : Request
  pub outcome : Called

abbrev pub Log : Type 0
Log = List Exchange

module _ {W : Type 0} (net : Net W) where
  abbrev pub logged : Net (W × Log)
  logged = record {
    send = λ r (w, log).
        let (reply, w') = net.send r w in
        (
          reply,
          (
            w',
            record { request = r.params; outcome = check_reply (method r.params) r.id reply } ∷ log,
          ),
        );
  }

abbrev pub log_of : {W : Type 0} → Conn (W × Log) → Log
log_of s = s.world.1

module _ {W : Type 0} (net : Net W) (client : Client) where
  -- What `call` finds, and the state that it leaves.
  abbrev pub called : Request → Conn W → Called
  called req s =
      check_reply (method req) (next_id s.rpc_id)
        (net.send (http_request client (next_id s.rpc_id) req) s.world).0

  pub call_lem : (req : Request) (s : Conn W) → (call net client req s).0 ≡ ok (called req s)
  unfolding call
  call_lem req s = refl

module _ {W : Type 0} (net : Net W) (client : Client) where
  pub log-call :
      (req : Request) (s : Conn (W × Log))
      → log_of (call (logged net) client req s).1
        ≡ record { request = req; outcome = called (logged net) client req s } ∷ log_of s
  unfolding call
  log-call req s = refl
