-- ===== src/Heartbeat/Heard.antt =====
-- What the application hears of the peers, from `PZGHeartbeatSession` through `PZGNetworkIOSession` to
-- `ZGPeerSession`, is what the heartbeat thread's updates say.
use zg_choir.Base.{
  ℕ, ◌≡◌, refl, sym, ap, Bool, true, false, Option, none, some, List, [], ◌∷◌, ◌++◌, if◌then◌else◌,
  arith, inl, inr, if_inv, subst, ◌∙◌, Bool-cases, Option-cases,
}
use zg_choir.Peer.{PeerId, peer_eq}
use zg_choir.Assoc.{peer_key, lookup, insert, erase, has}
use zg_choir.Assoc.Laws.{same_refl, same-cases, lookup_here, lookup_later, lookup-insert}
use zg_choir.Assoc.Distinct.{IsTable, erase-IsTable, lookup-erase_same, lookup-erase_other}
use zg_choir.Heartbeat.State.{Beat}
use zg_choir.Heartbeat.Members.{
  Members, PeerEvent, OnlinePeers, attributes_of, group, goes_on, depart, depart_all,
  offline_events, arrive, arrive_all, online_events, senior_events, update_members, member_events,
  hear, hear_all, came_online,
}
use zg_choir.Heartbeat.Roster.{group-IsTable, lookup-arrive}
use zg_choir.Heartbeat.Departed.{depart-goes_on, goes_on-attributes}

abbrev pub attributes_in : Option (List Beat) → Option (Option (List ℕ))
attributes_in none = none
attributes_in (some q) = some (attributes_of q)

-- The application has heard of the peers of a table, each with the attributes of its first packet.
abbrev pub Matches : OnlinePeers → Members → Type 0
Matches l m = (r : PeerId) → lookup r l ≡ attributes_in (lookup r m)

hear-append :
    (es fs : List PeerEvent) (l : OnlinePeers) → hear_all (es ++ fs) l ≡ hear_all fs (hear_all es l)
unfolding hear_all
hear-append [] fs l = refl
hear-append (e ∷ es) fs l = hear-append es fs (hear e l)

hear-senior : (old new : PeerId) (l : OnlinePeers) → hear_all (senior_events old new) l ≡ l
unfolding hear_all hear senior_events
hear-senior old new l =
    if_inv (λ (es : List PeerEvent). hear_all es l ≡ l) (peer_eq new old) refl refl

erase-Matches :
    (p : PeerId) (l : OnlinePeers) (m : Members)
    → IsTable l
    → IsTable m
    → Matches l m
    → Matches (erase p l) (erase p m)
erase-Matches p l m hl hm h r = elim (same-cases p r) [
  | inl e ↦
      subst (λ x. lookup x (erase p l) ≡ attributes_in (lookup x (erase p m))) e
        (lookup-erase_same p l hl ∙ ap attributes_in (sym (lookup-erase_same p m hm)))
  | inr e ↦ lookup-erase_other p r l e ∙ (h r ∙ ap attributes_in (sym (lookup-erase_other p r m e)))
]

module _ (new : Members) where
  -- The first loop, on both sides.
  offline-Matches :
      (old : Members) (l : OnlinePeers) (m : Members)
      → IsTable l
      → IsTable m
      → Matches l m
      → Matches (hear_all (offline_events new old) l) (depart_all new old m)
        × IsTable (hear_all (offline_events new old) l)
  unfolding offline_events depart_all depart hear_all hear
  offline-Matches [] l m hl hm h = (h, hl)
  offline-Matches ((p, q) ∷ old) l m hl hm h = elim (Bool-cases (goes_on (lookup p new) q)) [
    | inl e ↦ rw e (offline-Matches old l m hl hm h)
    | inr e ↦ rw e (
        offline-Matches old (erase p l) (erase p m) (erase-IsTable p l hl) (erase-IsTable p m hm)
          (erase-Matches p l m hl hm h))
  ]

-- In the second loop, a peer that is left has the attributes of the update.
abbrev Agree : Members → Members → Type 0
Agree new m =
    (p : PeerId) (q w : List Beat)
    → lookup p new ≡ some q
    → lookup p m ≡ some w
    → attributes_of q ≡ attributes_of w

depart-Agree : (new old : Members) → IsTable old → Agree new (depart_all new old old)
depart-Agree new old v p q w h e =
    goes_on-attributes q w (subst (λ o. goes_on o w ≡ true) h (depart-goes_on new p old w v e))

arrive-Agree :
    (before : Option PeerId) (p : PeerId) (q : List Beat) (new m : Members)
    → lookup p new ≡ none
    → Agree ((p, q) ∷ new) m
    → Agree new (arrive before p q m)
arrive-Agree before p q new m v h r x w e e' = elim (same-cases p r) [
  | inl i ↦ ground (arith, subst (λ y. lookup y new ≡ none) i v)
  | inr i ↦
      h r x w (lookup_later r p q new i ∙ e) (sym (lookup-arrive before p r q m ∙ rw i refl) ∙ e')
]

arrive-Matches :
    (before : Option PeerId) (p : PeerId) (q : List Beat) (new m : Members) (l : OnlinePeers)
    → Agree ((p, q) ∷ new) m
    → Matches l m
    → Matches (if has p m then l else insert p (attributes_of q) l) (arrive before p q m)
arrive-Matches before p q new m l h k r = elim (Option-cases (lookup p m)) [
  | inl e ↦
      rw (e, lookup-insert p r (attributes_of q) l, lookup-arrive before p r q m)
        (elim (same-cases p r) [ inl i ↦ rw (i, same_refl r) refl | inr i ↦ rw i (k r) ])
  | inr (w, e) ↦
      rw (e, lookup-arrive before p r q m)
        (elim (same-cases p r) [
          | inl i ↦
              rw (i, same_refl r)
                (k r
                  ∙ (ap attributes_in (subst (λ x. lookup x m ≡ some w) i e)
                      ∙ ap some (sym (h p q w (lookup_here p p q new refl) e))))
          | inr i ↦ rw i (k r)
        ])
]

hear-round :
    (c : Bool) (p : PeerId) (a : Option (List ℕ)) (es : List PeerEvent) (l : OnlinePeers)
    → hear_all (if c then es else came_online p a ∷ es) l
      ≡ hear_all es (if c then l else insert p a l)
unfolding hear_all hear
hear-round true p a es l = refl
hear-round false p a es l = refl

online-Matches :
    (before : Option PeerId) (new m : Members) (l : OnlinePeers)
    → IsTable new
    → Agree new m
    → Matches l m
    → Matches (hear_all (online_events before new m) l) (arrive_all before new m)
unfolding online_events arrive_all hear_all hear
online-Matches before [] m l v h k = k
online-Matches before ((p, q) ∷ new) m l v h k =
    subst (λ x. Matches x (arrive_all (some p) new (arrive before p q m)))
      (sym (
        hear-round (has p m) p (attributes_of q) (online_events (some p) new (arrive before p q m))
          l))
      (online-Matches (some p) new (arrive before p q m) _ v.1 (arrive-Agree before p q new m v.0 h)
        (arrive-Matches before p q new m l h k))

-- What the application hears of the peers stays true: after an update it has heard of the peers
-- that the main thread knows of, each with the attributes of its first packet, where it had
-- before, and both tables had each peer once.
pub hear-member_events :
    (beats : List Beat) (old : Members) (l : OnlinePeers)
    → IsTable old
    → IsTable l
    → Matches l old
    → Matches (hear_all (member_events beats old) l) (update_members beats old)
unfolding member_events update_members
hear-member_events beats old l v w h =
    subst (λ x. Matches x (update_members beats old))
      (sym (
        hear-append (offline_events new old) _ l
        ∙ (hear-append (online_events none new left) _ _ ∙ hear-senior _ _ _)))
      (online-Matches none new left _ (group-IsTable beats [] tt) (depart-Agree new old v)
        (offline-Matches new old l old w v h).0)
  where
    new : Members
    new = group beats []

    left : Members
    left = depart_all new old old
