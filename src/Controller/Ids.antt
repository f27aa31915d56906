-- ===== src/Controller/Ids.antt =====
-- Volume ids: `getSPDKVol` against the ids that `createVolume` composes.
use spdk_csi.Prelude.{◌≡◌, ◌↔◌, List, [], ◌∷◌}
use spdk_csi.Text.{Str, split}
use spdk_csi.Text.Laws.{Free, Pieces, join, split-Free, split-append, split-Pieces}
use spdk_csi.Effect.{good}
use spdk_csi.Controller.Message.{SpdkVolume}
use spdk_csi.Controller.Server.{volume_id_of, two_pieces, get_spdk_vol}

pub get_spdk_vol-volume_id_of :
    (n l : Str)
    → Free b':' n
    → Free b':' l
    → get_spdk_vol (volume_id_of n l) ≡ good (record { lvol_id = l; node_name = n })
unfolding get_spdk_vol volume_id_of
get_spdk_vol-volume_id_of n l hn hl = rw (split-append n l b':' hn, split-Free l b':' hl)

two_pieces-good :
    (id : Str) (ps : List Str) (v : SpdkVolume)
    → Pieces id b':' ps
    → two_pieces id ps ≡ good v
    → (volume_id_of v.node_name v.lvol_id ≡ id) × Free b':' v.node_name × Free b':' v.lvol_id
unfolding volume_id_of
two_pieces-good id [] v p h = cc
two_pieces-good id (n ∷ []) v p h = cc
two_pieces-good id (n ∷ l ∷ []) v p h =
    let e : record { lvol_id = l; node_name = n } ≡ v = cc in
    rw (← e) (unfold join in p.joined, p.free.0, p.free.1.0)
two_pieces-good id (n ∷ l ∷ m ∷ ps) v p h = cc

-- getSPDKVol reads an id as a node name and a volume id exactly when the id is the two joined by a
-- colon, as createVolume joins them, and neither holds a colon.
pub get_spdk_vol-good_iff :
    (id : Str) (v : SpdkVolume)
    → (get_spdk_vol id ≡ good v)
      ↔ ((volume_id_of v.node_name v.lvol_id ≡ id) × Free b':' v.node_name × Free b':' v.lvol_id)
get_spdk_vol-good_iff id v = (
  λ h. two_pieces-good id (split id b':') v (split-Pieces id b':') (unfold get_spdk_vol in h),
  λ h. rw (← h.0) (get_spdk_vol-volume_id_of v.node_name v.lvol_id h.1 h.2),
)
