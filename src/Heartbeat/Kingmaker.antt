-- ===== src/Heartbeat/Kingmaker.antt =====
-- Whose order of the peers counts, and how a peer orders them itself (`GetKingmakerPeerID`,
-- `GetKingmakerPeerSource` and `ComparePeerIDsBySeniority` of `PZGHeartbeatThreadState`).
use zg_choir.Base.{
  ℕ, zero, suc, get_elem?, ◌⊎◌, ◌≡◌, refl, sym, true, false, Option, none, some, List, [], ◌∷◌,
  if◌then◌else◌, arith, inl, inr, if_true, if_false, subst, Bool-cases, All,
}
use zg_choir.Peer.{PeerId, peer_lt, is_valid, no_peer}
use zg_choir.Assoc.{peer_key, number_key}
use zg_choir.Heartbeat.State.{SourceKey, Source, Thread, source_key}
use zg_choir.Heartbeat.Election.{
  improves, kingmaker_from, kingmaker, kingmaker_source_from, kingmaker_source, list_matches,
}

-- The peer that a source key names, or none.
abbrev pub peer_of : Option SourceKey → PeerId
peer_of none = no_peer
peer_of (some k) = k.peer

kingmaker-source_from :
    (l : List (SourceKey × Source)) (found : Option SourceKey) (t : Thread)
    → All (λ (e : SourceKey × Source). e.1.beat.packet.source ≡ e.0.peer) l
    → peer_of (kingmaker_source_from found (peer_of found) l t) ≡ kingmaker_from (peer_of found) l t
unfolding kingmaker_source_from kingmaker_from
kingmaker-source_from [] found t h = refl
kingmaker-source_from ((k, s) ∷ l) found t h =
    elim (Bool-cases (improves (peer_of found) s.beat.packet t)) [
      | inl e ↦ rw e (
          subst (λ p. peer_of (kingmaker_source_from (some k) p l t) ≡ kingmaker_from p l t)
            (sym h.0) (kingmaker-source_from l (some k) t h.1))
      | inr e ↦ rw e (kingmaker-source_from l found t h.1)
    ]

-- The two loops that look for the kingmaker agree: where each source is kept under the peer that
-- its packet names, the source that the second finds is one of the peer that the first finds.
pub kingmaker-source :
    (t : Thread)
    → All (λ (e : SourceKey × Source). e.1.beat.packet.source ≡ e.0.peer) t.online
    → peer_of (kingmaker_source t) ≡ kingmaker t
unfolding kingmaker_source kingmaker
kingmaker-source t h = kingmaker-source_from t.online none t h

-- A valid peer id that is not above another.
abbrev pub Least : PeerId → PeerId → Type 0
Least r p = (is_valid r ≡ true) × (peer_lt p r ≡ false)

peer_lt_irrefl : (p : PeerId) → peer_lt p p ≡ false
unfolding peer_lt
peer_lt_irrefl p = ground arith

peer_ge_trans : (p q r : PeerId) → peer_lt p q ≡ false → peer_lt q r ≡ false → peer_lt p r ≡ false
unfolding peer_lt
peer_ge_trans p q r h h' = ground arith

peer_lt_asymm : (p q : PeerId) → peer_lt p q ≡ true → peer_lt q p ≡ false
unfolding peer_lt
peer_lt_asymm p q h = ground arith

abbrev IsSound : List (SourceKey × Source) → Type 0
IsSound l = All (λ (e : SourceKey × Source). is_valid e.1.beat.packet.source ≡ true) l

-- What the test of the loop says.
improves_smaller :
    (best : PeerId) (s : Source) (t : Thread)
    → is_valid best ≡ true
    → improves best s.beat.packet t ≡ true
    → peer_lt s.beat.packet.source best ≡ true
unfolding improves
improves_smaller best s t v e = ground arith

improves-false :
    (best : PeerId) (s : Source) (t : Thread)
    → list_matches s.beat.packet.ordered_peers t ≡ true
    → improves best s.beat.packet t ≡ false
    → Least best s.beat.packet.source
unfolding improves
improves-false best s t m e = ground arith

kingmaker_from_below :
    (l : List (SourceKey × Source)) (best : PeerId) (t : Thread)
    → IsSound l
    → is_valid best ≡ true
    → Least (kingmaker_from best l t) best
unfolding kingmaker_from
kingmaker_from_below [] best t h v = (v, peer_lt_irrefl best)
kingmaker_from_below ((k, s) ∷ l) best t h v = elim (Bool-cases (improves best s.beat.packet t)) [
  | inl e ↦
      let below : Least (kingmaker_from s.beat.packet.source l t) s.beat.packet.source =
        kingmaker_from_below l s.beat.packet.source t h.1 h.0 in
      if_true (λ b. Least (kingmaker_from b l t) best) (improves best s.beat.packet t) _ _ e
        (
          below.0,
          peer_ge_trans best s.beat.packet.source _
              (peer_lt_asymm s.beat.packet.source best (improves_smaller best s t v e)) below.1,
        )
  | inr e ↦
      if_false (λ b. Least (kingmaker_from b l t) best) (improves best s.beat.packet t) _ _ e
        (kingmaker_from_below l best t h.1 v)
]

kingmaker_from-Least :
    (l : List (SourceKey × Source)) (best : PeerId) (t : Thread)
    → IsSound l
    → All
        (λ (e : SourceKey × Source).
          list_matches e.1.beat.packet.ordered_peers t ≡ true
          → Least (kingmaker_from best l t) e.1.beat.packet.source)
        l
unfolding kingmaker_from
kingmaker_from-Least [] best t h = tt
kingmaker_from-Least ((k, s) ∷ l) best t h = (
  λ m. elim (Bool-cases (improves best s.beat.packet t)) [
    | inl e ↦
        if_true (λ b. Least (kingmaker_from b l t) s.beat.packet.source)
          (improves best s.beat.packet t) _ _ e
          (kingmaker_from_below l s.beat.packet.source t h.1 h.0)
    | inr e ↦
        let held : Least best s.beat.packet.source = improves-false best s t m e in
        let below : Least (kingmaker_from best l t) best =
          kingmaker_from_below l best t h.1 held.0 in
        if_false (λ b. Least (kingmaker_from b l t) s.beat.packet.source)
          (improves best s.beat.packet t) _ _ e
          (below.0, peer_ge_trans s.beat.packet.source best _ held.1 below.1)
  ],
  kingmaker_from-Least l (if improves best s.beat.packet t then s.beat.packet.source else best) t
      h.1,
)

-- One of the sources knows the same set of peers as this one, and its packet names the peer.
abbrev pub IsMatched : Thread → PeerId → List (SourceKey × Source) → Type 0
IsMatched t p l =
    (i : ℕ) × (e : SourceKey × Source) × (get_elem? l i ≡ some e)
    × (list_matches e.1.beat.packet.ordered_peers t ≡ true)
    × (e.1.beat.packet.source ≡ p)

improves_matches :
    (best : PeerId) (s : Source) (t : Thread)
    → improves best s.beat.packet t ≡ true
    → list_matches s.beat.packet.ordered_peers t ≡ true
unfolding improves
improves_matches best s t e = ground arith

IsMatched-later :
    (t : Thread) (p : PeerId) (x : SourceKey × Source) (l : List (SourceKey × Source))
    → IsMatched t p l
    → IsMatched t p (x ∷ l)
IsMatched-later t p x l (i, e, there, m, n) = (suc i, e, there, m, n)

-- The peer that the loop ends with is the one that it began with, or that of a source that knows
-- the same set of peers.
kingmaker_from-IsMatched :
    (l : List (SourceKey × Source)) (best : PeerId) (t : Thread)
    → (kingmaker_from best l t ≡ best) ⊎ IsMatched t (kingmaker_from best l t) l
unfolding kingmaker_from
kingmaker_from-IsMatched [] best t = inl refl
kingmaker_from-IsMatched ((k, s) ∷ l) best t =
    let later = λ (p : PeerId). IsMatched-later t p (k, s) l in
    elim (Bool-cases (improves best s.beat.packet t)) [
      | inl e ↦ inr (
          if_true (λ b. IsMatched t (kingmaker_from b l t) ((k, s) ∷ l))
            (improves best s.beat.packet t) _ _ e
            (elim (kingmaker_from-IsMatched l s.beat.packet.source t) [
              | inl own ↦ (zero, (k, s), refl, improves_matches best s t e, sym own)
              | inr m ↦ later _ m
            ]))
      | inr e ↦
          if_false
            (λ b. (kingmaker_from b l t ≡ best) ⊎ IsMatched t (kingmaker_from b l t) ((k, s) ∷ l))
            (improves best s.beat.packet t) _ _ e
            (elim (kingmaker_from-IsMatched l best t) [
              | inl own ↦ inl own
              | inr m ↦ inr (later _ m)
            ])
    ]

-- The kingmaker is no peer, or a peer that a source names which knows the same set of peers as
-- this one. Where there is such a source, the kingmaker is a valid peer, and none of these sources
-- is of a peer below it: where the peer ids of the sources are valid.
pub kingmaker-Least :
    (t : Thread)
    → IsSound t.online
    → ((kingmaker t ≡ no_peer) ⊎ IsMatched t (kingmaker t) t.online)
      × All
          (λ (e : SourceKey × Source).
            list_matches e.1.beat.packet.ordered_peers t ≡ true
            → Least (kingmaker t) e.1.beat.packet.source)
          t.online
unfolding kingmaker
kingmaker-Least t h =
    (kingmaker_from-IsMatched t.online no_peer t, kingmaker_from-Least t.online no_peer t h)
