-- ===== src/Heartbeat/Seniority.antt =====
-- The order by seniority of `PZGHeartbeatThreadState` (`ComparePeerIDsBySeniority`).
use Prim.Native.Nat.{compare, Ordering}
use zg_choir.Base.{
  ℕ, ◌≡◌, ◌≢◌, ◌<◌, ◌↔◌, refl, sym, true, some, List, if◌then◌else◌, arith, inl, ◌⊎◌, ◌∙◌,
}
use zg_choir.Peer.{PeerId, peer_lt}
use zg_choir.Assoc.{peer_key, number_key, lookup}
use zg_choir.Heartbeat.State.{Thread, full_peer, junior_only}
use zg_choir.Heartbeat.Election.{
  Muscle, negate, or_else, compare_found, compare_by_seniority, type_of, uptime_of,
}

-- The comparison of two peers by what the table says of them.
rank : ℕ → ℕ → ℕ → ℕ → PeerId → PeerId → Ordering
rank type type' uptime uptime' p q = or_else (negate (compare type type')) (
    or_else (negate (compare uptime uptime')) (
      negate
        (if peer_lt p q then Ordering.lt else if peer_lt q p then Ordering.gt else Ordering.eq)))

-- A larger type, then a longer time since the start, then a larger id.
abbrev pub Outranks : ℕ → ℕ → ℕ → ℕ → PeerId → PeerId → Type 0
Outranks type type' uptime uptime' p q =
    (type' < type)
    ⊎ ((type ≡ type') × ((uptime' < uptime) ⊎ ((uptime ≡ uptime') × (peer_lt q p ≡ true))))

rank_lt :
    (type type' uptime uptime' : ℕ) (p q : PeerId)
    → (rank type type' uptime uptime' p q ≡ Ordering.lt) ↔ Outranks type type' uptime uptime' p q
unfolding rank peer_lt
rank_lt type type' uptime uptime' p q = ground arith

rank_eq :
    (type type' uptime uptime' : ℕ) (p q : PeerId)
    → rank type type' uptime uptime' p q ≡ Ordering.eq
    → p ≡ q
unfolding rank peer_lt
rank_eq type type' uptime uptime' p q h = ground arith

module _ (C : Muscle) (t : Thread) (p q : PeerId) (l m : List ℕ) where
  compare_by_seniority_lem :
      lookup p t.addresses ≡ some l
      → lookup q t.addresses ≡ some m
      → compare_by_seniority C t p q
        ≡ rank (type_of p l t) (type_of q m t) (uptime_of p l t) (uptime_of q m t) p q
  unfolding compare_by_seniority compare_found rank
  compare_by_seniority_lem hp hq =
      rw
        (
          hp,
          hq,
          compare_found,
          C.numbers_lem (type_of p l t) (type_of q m t),
          C.numbers_lem (uptime_of p l t) (uptime_of q m t),
          C.peers_lem p q,
        )
        refl

  -- Of two peers with a queue, one comes before the other just when its type is larger, or its
  -- type is the same and its time since the start longer, or both are the same and its id is
  -- larger.
  pub compare_by_seniority_iff :
      lookup p t.addresses ≡ some l
      → lookup q t.addresses ≡ some m
      → (compare_by_seniority C t p q ≡ Ordering.lt)
        ↔ Outranks (type_of p l t) (type_of q m t) (uptime_of p l t) (uptime_of q m t) p q
  compare_by_seniority_iff hp hq = rw (compare_by_seniority_lem hp hq) (rank_lt _ _ _ _ p q)

  -- Two different peers with a queue never tie.
  pub compare_by_seniority_distinct :
      lookup p t.addresses ≡ some l
      → lookup q t.addresses ≡ some m
      → p ≢ q
      → compare_by_seniority C t p q ≢ Ordering.eq
  compare_by_seniority_distinct hp hq h e =
      h (rank_eq _ _ _ _ p q (sym (compare_by_seniority_lem hp hq) ∙ e))

  -- Of two peers with a queue, a junior-only peer comes before a full peer, however long either
  -- has been there.
  pub junior_only_first :
      lookup p t.addresses ≡ some l
      → lookup q t.addresses ≡ some m
      → type_of p l t ≡ junior_only
      → type_of q m t ≡ full_peer
      → compare_by_seniority C t p q ≡ Ordering.lt
  junior_only_first hp hq hj hf = (compare_by_seniority_iff hp hq).1 (inl (omega (arith, hj, hf)))
