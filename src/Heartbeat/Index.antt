-- ===== src/Heartbeat/Index.antt =====
-- The two tables of `PZGHeartbeatThreadState` agree: `addresses` is the index, by peer, of the
-- sources that are `online`.
use zg_choir.Base.{
  ℕ, ◌≡◌, ◌≢◌, refl, sym, ap, true, false, Option, none, some, List, [], ◌∷◌, ◌++◌, ◌==◌,
  if◌then◌else◌, arith, inl, inr, if_true, if_false, if_inv, subst, ◌∙◌, Bool-cases, All,
}
use zg_choir.Peer.{PeerId, peer_eq}
use zg_choir.Assoc.{peer_key, number_key, same_key, lookup, insert, erase, keys_of}
use zg_choir.Assoc.Laws.{same_refl, same-cases, lookup-insert_same, lookup-insert_other}
use zg_choir.Assoc.Distinct.{
  IsTable, erase-IsTable, insert-IsTable, lookup-erase_same, lookup-erase_other,
}
use zg_choir.Heartbeat.State.{SourceKey, Source, Thread, source_key, source_eq_iff}
use zg_choir.Heartbeat.Sources.{remove_first, settle_queue, or_empty, forget_address, queue_of}

-- The addresses of a peer's sources, in order.
abbrev pub addresses_of : PeerId → List SourceKey → List ℕ
addresses_of p [] = []
addresses_of p (k ∷ l) =
    let rest = addresses_of p l in if peer_eq k.peer p then k.address ∷ rest else rest

-- Every source is kept under the peer that its packet names.
abbrev pub IsNamed : List (SourceKey × Source) → Type 0
IsNamed l = All (λ e. e.1.beat.packet.source ≡ e.0.peer) l

-- No queue is empty.
abbrev pub IsFilled : List (PeerId × List ℕ) → Type 0
IsFilled l = (p : PeerId) → lookup p l ≢ some []

-- Each queue lists the peer's sources in the order in which they came online; a peer with none has
-- no queue.
pub record Index (online : List (SourceKey × Source)) (addresses : List (PeerId × List ℕ))
    : Type 0 where
  pub online_table : IsTable online
  pub addresses_table : IsTable addresses
  pub named : IsNamed online
  pub filled : IsFilled addresses
  pub indexed : (p : PeerId) → queue_of p addresses ≡ addresses_of p (keys_of online)

abbrev pub IsIndexed : Thread → Type 0
IsIndexed t = Index t.online t.addresses

pub addresses_of-append :
    (p : PeerId) (l m : List SourceKey)
    → addresses_of p (l ++ m) ≡ addresses_of p l ++ addresses_of p m
addresses_of-append p [] m = refl
addresses_of-append p (k ∷ l) m = elim (Bool-cases (peer_eq k.peer p)) [
  | inl e ↦ rw (e, addresses_of-append p l m) refl
  | inr e ↦ rw (e, addresses_of-append p l m) refl
]

pub append-nil : (l : List ℕ) → l ++ [] ≡ l
append-nil [] = refl
append-nil (a ∷ l) = ap (a ∷◌) (append-nil l)

pub keys_of-append : (l m : List (SourceKey × Source)) → keys_of (l ++ m) ≡ keys_of l ++ keys_of m
keys_of-append [] m = refl
keys_of-append ((k, s) ∷ l) m = ap (k ∷◌) (keys_of-append l m)

-- A source that goes takes its address from its own peer's list, and from no other.
pub addresses_of-erase_other :
    (k : SourceKey) (p : PeerId) (l : List (SourceKey × Source))
    → peer_eq k.peer p ≡ false
    → addresses_of p (keys_of (erase k l)) ≡ addresses_of p (keys_of l)
unfolding erase
addresses_of-erase_other k p [] h = refl
addresses_of-erase_other k p ((q, s) ∷ l) h = elim (same-cases q k) [
  | inl e ↦ rw (e, same_refl k, h) refl
  | inr e ↦ rw (e, addresses_of-erase_other k p l h) refl
]

address_differs :
    (q k : SourceKey)
    → same_key q k ≡ false
    → peer_eq q.peer k.peer ≡ true
    → (q.address == k.address) ≡ false
address_differs q k e e' = ground arith

pub addresses_of-erase_own :
    (k : SourceKey) (l : List (SourceKey × Source))
    → addresses_of k.peer (keys_of (erase k l))
      ≡ remove_first k.address (addresses_of k.peer (keys_of l))
unfolding erase remove_first
addresses_of-erase_own k [] = refl
addresses_of-erase_own k ((q, s) ∷ l) = elim (same-cases q k) [
  | inl e ↦ rw (e, same_refl k, same_refl k.peer, same_refl k.address) refl
  | inr e ↦ rw (e) (elim (Bool-cases (peer_eq q.peer k.peer)) [
    | inl e' ↦ rw (e', remove_first, address_differs q k e e', addresses_of-erase_own k l) refl
    | inr e' ↦ rw (e', addresses_of-erase_own k l) refl
  ])
]

pub IsNamed-erase :
    (k : SourceKey) (l : List (SourceKey × Source)) → IsNamed l → IsNamed (erase k l)
unfolding erase
IsNamed-erase k [] h = h
IsNamed-erase k ((q, s) ∷ l) h = if_inv IsNamed (same_key q k) h.1 (h.0, IsNamed-erase k l h.1)

some_inj : (r s : Source) → some r ≡ some s → r ≡ s
some_inj r s h = ap (λ o. elim o [ none ↦ r | some x ↦ x ]) h

pub IsNamed-lookup :
    (k : SourceKey) (l : List (SourceKey × Source)) (s : Source)
    → IsNamed l
    → lookup k l ≡ some s
    → s.beat.packet.source ≡ k.peer
unfolding lookup
IsNamed-lookup k [] s h e = ground arith
IsNamed-lookup k ((q, r) ∷ l) s h e = elim (same-cases q k) [
  | inl i ↦
      sym (
        ap (λ x. x.beat.packet.source)
          (some_inj r s (
            if_true (λ o. o ≡ some s → some r ≡ some s) (same_key q k) _ _ ((source_eq_iff q k).1 i)
              (λ x. x) e)))
      ∙ (h.0 ∙ ap (λ x. x.peer) i)
  | inr i ↦
      IsNamed-lookup k l s h.1
        (if_false (λ o. o ≡ some s → lookup k l ≡ some s) (same_key q k) _ _ i (λ x. x) e)
]

pub IsNamed-insert :
    (k : SourceKey) (s : Source) (l : List (SourceKey × Source))
    → s.beat.packet.source ≡ k.peer
    → IsNamed l
    → IsNamed (insert k s l)
unfolding insert
IsNamed-insert k s [] e h = (e, tt)
IsNamed-insert k s ((q, r) ∷ l) e h = elim (same-cases q k) [
  | inl i ↦ rw (i, same_refl k) (e, h.1)
  | inr i ↦ rw i (h.0, IsNamed-insert k s l e h.1)
]

-- What a step that gives a peer the queue `r` leaves.
pub record HasQueue (p : PeerId) (r : List ℕ) (t u : Thread) : Type 0 where
  pub table : IsTable u.addresses
  pub filled : IsFilled u.addresses
  pub own : queue_of p u.addresses ≡ r
  pub others : (q : PeerId) → same_key p q ≡ false → queue_of q u.addresses ≡ queue_of q t.addresses
  pub same_online : u.online ≡ t.online

erase-IsFilled :
    (p : PeerId) (l : List (PeerId × List ℕ)) → IsTable l → IsFilled l → IsFilled (erase p l)
erase-IsFilled p l h f q e = elim (same-cases p q) [
  | inl i ↦
      ground (arith, lookup-erase_same p l h, subst (λ x. lookup x (erase p l) ≡ some []) (sym i) e)
  | inr i ↦ f q (sym (lookup-erase_other p q l i) ∙ e)
]

pub insert-IsFilled :
    (p : PeerId) (r : List ℕ) (l : List (PeerId × List ℕ))
    → r ≢ []
    → IsFilled l
    → IsFilled (insert p r l)
insert-IsFilled p r l n f q e = elim (same-cases p q) [
  | inl i ↦
      n (ap or_empty (sym (lookup-insert_same p r l) ∙ (ap (λ x. lookup x (insert p r l)) i ∙ e)))
  | inr i ↦ f q (sym (lookup-insert_other p q r l i) ∙ e)
]

settle_queue-HasQueue :
    (p : PeerId) (r : List ℕ) (t : Thread)
    → IsTable t.addresses
    → IsFilled t.addresses
    → HasQueue p r t (settle_queue p r t)
unfolding settle_queue
settle_queue-HasQueue p [] t h f = record {
  table = erase-IsTable p t.addresses h;
  filled = erase-IsFilled p t.addresses h f;
  own = ap or_empty (lookup-erase_same p t.addresses h);
  others = λ q e. ap or_empty (lookup-erase_other p q t.addresses e);
  same_online = refl;
}
settle_queue-HasQueue p (b ∷ r) t h f = record {
  table = insert-IsTable p (b ∷ r) t.addresses h;
  filled = insert-IsFilled p (b ∷ r) t.addresses (λ e. ground arith) f;
  own = ap or_empty (lookup-insert_same p (b ∷ r) t.addresses);
  others = λ q e. ap or_empty (lookup-insert_other p q (b ∷ r) t.addresses e);
  same_online = refl;
}

pub forget_address-HasQueue :
    (p : PeerId) (a : ℕ) (t : Thread)
    → IsTable t.addresses
    → IsFilled t.addresses
    → HasQueue p
        (remove_first a (queue_of p t.addresses))
        t
        (forget_address p a (lookup p t.addresses) t)
unfolding forget_address remove_first
forget_address-HasQueue p a t h f = go (lookup p t.addresses) refl
  where
    same : HasQueue p (queue_of p t.addresses) t t
    same = record { table = h; filled = f; own = refl; others = λ q i. refl; same_online = refl }

    go :
        (o : Option (List ℕ))
        → lookup p t.addresses ≡ o
        → HasQueue p (remove_first a (or_empty o)) t (forget_address p a o t)
    go none e = subst (λ o. HasQueue p (or_empty o) t t) e same
    go (some []) e = subst (λ o. HasQueue p (or_empty o) t t) e same
    go (some (b ∷ q)) e = settle_queue-HasQueue p (remove_first a (b ∷ q)) t h f
