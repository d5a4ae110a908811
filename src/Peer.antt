-- ===== src/Peer.antt =====
-- `ZGPeerID` (include/zg/ZGPeerID.h): a peer's 128-bit name, in two halves, with its comparisons.
use zg_choir.Base.{ℕ, ◌≡◌, ◌↔◌, Bool, true, not, ◌&&◌, ◌||◌, arith, ltb, ◌==◌}

pub record PeerId : Type 0 where
  pub high : ℕ
  pub low : ℕ

abbrev pub no_peer : PeerId
no_peer = record { high = 0; low = 0 }

abbrev pub peer_eq : PeerId → PeerId → Bool
peer_eq a b = (a.high == b.high) && (a.low == b.low)

abbrev pub is_valid : PeerId → Bool
is_valid p = not (p.high == 0) || not (p.low == 0)

unfoldable pub peer_lt : PeerId → PeerId → Bool
peer_lt a b = ltb a.high b.high || ((a.high == b.high) && ltb a.low b.low)

unfoldable pub peer_gt : PeerId → PeerId → Bool
peer_gt a b = ltb b.high a.high || ((a.high == b.high) && ltb b.low a.low)

unfoldable pub peer_ge : PeerId → PeerId → Bool
unfolding peer_lt
peer_ge a b = not (peer_lt a b)

unfoldable pub peer_le : PeerId → PeerId → Bool
unfolding peer_gt
peer_le a b = not (peer_gt a b)

pub peer_eq_iff : (a b : PeerId) → (peer_eq a b ≡ true) ↔ (a ≡ b)
peer_eq_iff a b = ground arith
