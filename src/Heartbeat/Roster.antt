-- ===== src/Heartbeat/Roster.antt =====
-- What `PZGHeartbeatSession` knows after an update is what the update says.
use zg_choir.Base.{
  ◌≡◌, refl, sym, Bool, true, false, Option, none, some, List, [], ◌∷◌, ◌++◌, if◌then◌else◌, arith,
  inl, inr, ◌⊎◌, if_inv, subst, ◌∙◌, Bool-cases, Option-cases,
}
use zg_choir.Peer.{PeerId}
use zg_choir.Assoc.{peer_key, same_key, lookup, erase}
use zg_choir.Assoc.Laws.{same_eq, same-cases, lookup_later, lookup-insert}
use zg_choir.Assoc.Distinct.{
  IsTable, erase-IsTable, insert-IsTable, lookup-erase_same, lookup-erase_other,
}
use zg_choir.Heartbeat.State.{Beat}
use zg_choir.Heartbeat.Members.{
  Members, packets_of, group, goes_on, depart, depart_all, put_behind, place, arrive, arrive_all,
  update_members,
}

pub group-IsTable : (bs : List Beat) (l : Members) → IsTable l → IsTable (group bs l)
unfolding group
group-IsTable [] l h = h
group-IsTable (b ∷ bs) l h =
    group-IsTable bs _
      (insert-IsTable b.packet.source (packets_of b.packet.source l ++ (b ∷ [])) l h)

pub depart-IsTable :
    (new : Members) (p : PeerId) (q : List Beat) (l : Members)
    → IsTable l
    → IsTable (depart new p q l)
unfolding depart
depart-IsTable new p q l h = if_inv IsTable (goes_on (lookup p new) q) h (erase-IsTable p l h)

-- A peer that the update does not name is gone after the first loop.
depart_all-lookup :
    (new old l : Members) (r : PeerId)
    → lookup r new ≡ none
    → (lookup r old ≡ none → lookup r l ≡ none)
    → IsTable l
    → lookup r (depart_all new old l) ≡ none
unfolding depart_all lookup depart goes_on
depart_all-lookup new [] l r h k v = k refl
depart_all-lookup new ((p, q) ∷ old) l r h k v =
    depart_all-lookup new old (depart new p q l) r h (λ e. gone e (same-cases p r))
      (depart-IsTable new p q l v)
  where
    gone :
        lookup r old ≡ none → (p ≡ r) ⊎ (same_key p r ≡ false) → lookup r (depart new p q l) ≡ none
    gone e (inl i) =
        rw (subst (λ x. lookup x new ≡ none) (sym i) h)
          (subst (λ x. lookup x (erase p l) ≡ none) i (lookup-erase_same p l v))
    gone e (inr i) =
        if_inv (λ (x : Members). lookup r x ≡ none) (goes_on (lookup p new) q)
          (k (lookup_later r p q old i ∙ e))
          (lookup-erase_other p r l i ∙ k (lookup_later r p q old i ∙ e))

swap_tests :
    {A : Type 0} (a b : Bool) (x y z : A)
    → (a ≡ true → b ≡ false)
    → (if a then x else (if b then y else z)) ≡ (if b then y else (if a then x else z))
swap_tests true true x y z h = ground (arith, h refl)
swap_tests true false x y z h = refl
swap_tests false b x y z h = refl

lookup-put_behind :
    (b p r : PeerId) (q : List Beat) (l : Members)
    → lookup p l ≡ none
    → lookup r (put_behind b p q l) ≡ (if same_key p r then some q else lookup r l)
unfolding put_behind lookup
lookup-put_behind b p r q [] h = refl
lookup-put_behind b p r q ((s, w) ∷ l) h =
    if_inv
      (λ (x : Members).
        lookup r x
        ≡ (if same_key p r then some q else (if same_key s r then some w else lookup r l)))
      (same_key s b) (swap_tests (same_key s r) (same_key p r) (some w) (some q) (lookup r l) apart)
      (rw (lookup-put_behind b p r q l (ground arith))
        (swap_tests (same_key s r) (same_key p r) (some w) (some q) (lookup r l) apart))
  where
    apart : same_key s r ≡ true → same_key p r ≡ false
    apart e = elim (same-cases p r) [
      | inl i ↦ ground (arith, subst (λ x. same_key s x ≡ true) (sym i) e)
      | inr i ↦ i
    ]

-- The second loop.
pub lookup-arrive :
    (before : Option PeerId) (p r : PeerId) (q : List Beat) (l : Members)
    → lookup r (arrive before p q l) ≡ (if same_key p r then some q else lookup r l)
unfolding arrive place lookup
lookup-arrive before p r q l = elim (Option-cases (lookup p l)) [
  | inl e ↦ rw e (placed before e)
  | inr (w, e) ↦ rw e (lookup-insert p r q l)
]
  where
    placed :
        (before : Option PeerId)
        → lookup p l ≡ none
        → lookup r (place before p q l) ≡ (if same_key p r then some q else lookup r l)
    placed none e = refl
    placed (some b) e = lookup-put_behind b p r q l e

abbrev or_held : Option (List Beat) → Option (List Beat) → Option (List Beat)
or_held none o = o
or_held (some q) o = some q

lookup-arrive_all :
    (before : Option PeerId) (new l : Members) (r : PeerId)
    → IsTable new
    → lookup r (arrive_all before new l) ≡ or_held (lookup r new) (lookup r l)
unfolding arrive_all lookup
lookup-arrive_all before [] l r h = refl
lookup-arrive_all before ((p, q) ∷ new) l r h =
    lookup-arrive_all (some p) new (arrive before p q l) r h.1 ∙ elim (Bool-cases (same_key p r)) [
      | inl e ↦
          rw (lookup-arrive before p r q l, subst (λ x. lookup x new ≡ none) (same_eq p r e) h.0, e)
            refl
      | inr e ↦ rw (lookup-arrive before p r q l, e) refl
    ]

-- After an update, the main thread knows of the peers that the update names, each with the packets
-- that the update has for it, and of no others: where its table had each peer once.
pub lookup-update_members :
    (beats : List Beat) (old : Members) (r : PeerId)
    → IsTable old
    → lookup r (update_members beats old) ≡ lookup r (group beats [])
unfolding update_members
lookup-update_members beats old r v =
    lookup-arrive_all none (group beats []) (depart_all (group beats []) old old) r
      (group-IsTable beats [] tt)
    ∙ elim (Option-cases (lookup r (group beats []))) [
      | inl e ↦ rw (e, depart_all-lookup (group beats []) old old r e (λ h. h) v) refl
      | inr (q, e) ↦ rw e refl
    ]
