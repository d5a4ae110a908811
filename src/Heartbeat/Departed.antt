-- ===== src/Heartbeat/Departed.antt =====
-- Which peers an update of `PZGHeartbeatSession` leaves online: those that go on as they were.
use zg_choir.Base.{
  ℕ, ◌≡◌, refl, sym, ap, Bool, true, false, ==_iff, Option, none, some, List, [], ◌∷◌,
  if◌then◌else◌, arith, inl, inr, if_true, if_false, if_inv, subst, ◌∙◌, Bool-cases,
}
use zg_choir.Peer.{PeerId}
use zg_choir.Assoc.{peer_key, lookup, erase}
use zg_choir.Assoc.Laws.{same-cases, lookup_here, lookup_later}
use zg_choir.Assoc.Distinct.{IsTable, lookup-erase_same, lookup-erase_other}
use zg_choir.Wire.Heartbeat.{equal_ignoring_transients, buffers_equal, HeartbeatPacket}
use zg_choir.Heartbeat.State.{Beat}
use zg_choir.Heartbeat.Members.{Members, attributes_of, goes_on, depart, depart_all}
use zg_choir.Heartbeat.Roster.{depart-IsTable}

abbrev kept : (List Beat → Bool) → Option (List Beat) → Option (List Beat) → Option (List Beat)
kept f none o = o
kept f (some q) o = if f q then o else none

-- What the first loop leaves of a peer.
module _ (new : Members) (r : PeerId) where
  depart-round :
      (p : PeerId) (q : List Beat) (old m : Members)
      → lookup p old ≡ none
      → IsTable m
      → kept (goes_on (lookup r new)) (lookup r old) (lookup r (depart new p q m))
        ≡ kept (goes_on (lookup r new)) (lookup r ((p, q) ∷ old)) (lookup r m)
  unfolding depart
  depart-round p q old m h v = elim (same-cases p r) [
    | inl e ↦
        rw (subst (λ x. lookup x old ≡ none) e h, lookup_here r p q old e)
          (elim (Bool-cases (goes_on (lookup p new) q)) [
            | inl i ↦
                if_true
                  (λ (x : Members).
                    lookup r x ≡ (if goes_on (lookup r new) q then lookup r m else none))
                  (goes_on (lookup p new) q) _ _ i
                  (rw (subst (λ x. goes_on (lookup x new) q ≡ true) e i) refl)
            | inr i ↦
                if_false
                  (λ (x : Members).
                    lookup r x ≡ (if goes_on (lookup r new) q then lookup r m else none))
                  (goes_on (lookup p new) q) _ _ i
                  (rw (subst (λ x. goes_on (lookup x new) q ≡ false) e i)
                    (subst (λ x. lookup x (erase p m) ≡ none) e (lookup-erase_same p m v)))
          ])
    | inr e ↦ rw (lookup_later r p q old e) (
        if_inv
          (λ (x : Members).
            kept (goes_on (lookup r new)) (lookup r old) (lookup r x)
            ≡ kept (goes_on (lookup r new)) (lookup r old) (lookup r m))
          (goes_on (lookup p new) q) refl
          (ap (kept (goes_on (lookup r new)) (lookup r old)) (lookup-erase_other p r m e)))
  ]

  depart-lookup :
      (old m : Members)
      → IsTable old
      → IsTable m
      → lookup r (depart_all new old m) ≡ kept (goes_on (lookup r new)) (lookup r old) (lookup r m)
  unfolding depart_all lookup
  depart-lookup [] m h v = refl
  depart-lookup ((p, q) ∷ old) m h v =
      depart-lookup old (depart new p q m) h.1 (depart-IsTable new p q m v)
      ∙ depart-round p q old m h.0 v

  -- A peer that is left goes on as it was.
  pub depart-goes_on :
      (old : Members) (q : List Beat)
      → IsTable old
      → lookup r (depart_all new old old) ≡ some q
      → goes_on (lookup r new) q ≡ true
  depart-goes_on old q v e = go (lookup r old) (sym (depart-lookup old old v v) ∙ e)
    where
      go :
          (o : Option (List Beat))
          → kept (goes_on (lookup r new)) o o ≡ some q
          → goes_on (lookup r new) q ≡ true
      go none h = ground arith
      go (some w) h = elim (Bool-cases (goes_on (lookup r new) w)) [
        | inl i ↦
            subst (λ x. goes_on (lookup r new) x ≡ true)
              (ap (λ o. elim o [ none ↦ w | some x ↦ x ])
                (if_true (λ o. o ≡ some q → some w ≡ some q) (goes_on (lookup r new) w) _ _ i
                  (λ x. x) h))
              i
        | inr i ↦ ground (
          arith,
          if_false (λ o. o ≡ some q → none ≡ some q) (goes_on (lookup r new) w) _ _ i (λ x. x) h,
        )
      ]

same_bytes : (a b : List ℕ) → buffers_equal (some a) (some b) ≡ true → a ≡ b
unfolding buffers_equal
same_bytes [] [] h = refl
same_bytes [] (y ∷ b) h = ground arith
same_bytes (x ∷ a) [] h = ground arith
same_bytes (x ∷ a) (y ∷ b) h = ground (arith, ==_iff x y, same_bytes a b)

same_buffers : (a b : Option (List ℕ)) → buffers_equal a b ≡ true → a ≡ b
unfolding buffers_equal
same_buffers none none h = refl
same_buffers none (some b) h = ground arith
same_buffers (some a) none h = ground arith
same_buffers (some a) (some b) h = ap some (same_bytes a b h)

equal-attributes :
    (p q : HeartbeatPacket) → equal_ignoring_transients p q ≡ true → p.attributes ≡ q.attributes
unfolding equal_ignoring_transients
equal-attributes p q h = same_buffers p.attributes q.attributes (ground arith)

-- Peers that go on have the attributes that they had.
pub goes_on-attributes :
    (q w : List Beat) → goes_on (some q) w ≡ true → attributes_of q ≡ attributes_of w
unfolding goes_on
goes_on-attributes [] w h = ground arith
goes_on-attributes (b ∷ q) [] h = ground arith
goes_on-attributes (b ∷ q) (c ∷ w) h = equal-attributes b.packet c.packet h
