-- ===== src/Heartbeat/Online.antt =====
-- What the steps of `PZGHeartbeatThreadState` leave of the index: a source that goes, comes, changes
-- or is measured.
use zg_choir.Base.{
  ℕ, ◌≡◌, ◌≢◌, refl, sym, ap, not, Option, none, some, List, [], ◌∷◌, ◌++◌, if◌then◌else◌, arith,
  leb, inl, inr, if_inv, subst, ◌∙◌,
}
use zg_choir.Peer.{PeerId, peer_eq}
use zg_choir.Assoc.{peer_key, number_key, lookup, insert, erase, keys_of}
use zg_choir.Assoc.Laws.{same_refl, same-cases, lookup-insert_same, lookup-insert_other}
use zg_choir.Assoc.Distinct.{
  IsTable, erase-IsTable, insert-IsTable, insert_fresh, keys_of-insert, lookup-erase_same,
}
use zg_choir.Heartbeat.State.{SourceKey, Beat, Source, Thread, source_key, set_beat}
use zg_choir.Heartbeat.Sources.{
  expire_found, remove_first, settle_queue, or_empty, forget_address, expire_source, queue_of,
  introduce_source, expire_all,
}
use zg_choir.Wire.Heartbeat.{equal_ignoring_transients}
use zg_choir.Heartbeat.Sources.{refresh_found, refresh_source, expiration}
use zg_choir.Heartbeat.Index.{
  Index, IsIndexed, HasQueue, addresses_of, addresses_of-erase_own, addresses_of-erase_other,
  addresses_of-append, append-nil, keys_of-append, IsNamed-erase, IsNamed-lookup, IsNamed-insert,
  insert-IsFilled, forget_address-HasQueue,
}

drop_source-Index :
    (k : SourceKey) (t u : Thread)
    → IsIndexed t
    → HasQueue k.peer (remove_first k.address (queue_of k.peer t.addresses)) t u
    → Index (erase k u.online) u.addresses
drop_source-Index k t u v w = rw (w.same_online) (record {
  online_table = erase-IsTable k t.online v.online_table;
  addresses_table = w.table;
  named = IsNamed-erase k t.online v.named;
  filled = w.filled;
  indexed = λ p. elim (same-cases k.peer p) [
    | inl e ↦
        subst (λ x. queue_of x u.addresses ≡ addresses_of x (keys_of (erase k t.online))) e
          (w.own
            ∙ (ap (remove_first k.address) (v.indexed k.peer)
                ∙ sym (addresses_of-erase_own k t.online)))
    | inr e ↦ w.others p e ∙ (v.indexed p ∙ sym (addresses_of-erase_other k p t.online e))
  ];
})

-- A source that goes offline leaves both tables.
pub expire_source-IsIndexed :
    (k : SourceKey) (t : Thread) → IsIndexed t → IsIndexed (expire_source k t)
unfolding expire_source expire_found
expire_source-IsIndexed k t v = go (lookup k t.online) refl
  where
    go : (o : Option Source) → lookup k t.online ≡ o → IsIndexed (expire_found k o t)
    go none e = v
    go (some s) e =
        drop_source-Index k t
          (forget_address s.beat.packet.source k.address (lookup s.beat.packet.source t.addresses)
            t)
          v
          (subst
            (λ p. HasQueue p (remove_first k.address (queue_of p t.addresses)) t (
              forget_address s.beat.packet.source k.address
                (lookup s.beat.packet.source t.addresses) t))
            (IsNamed-lookup k t.online s v.named e)
            (forget_address-HasQueue s.beat.packet.source k.address t v.addresses_table v.filled))

append-nonempty : (l : List ℕ) (a : ℕ) → l ++ (a ∷ []) ≢ []
append-nonempty [] a e = ground arith
append-nonempty (b ∷ l) a e = ground arith

addresses_of-fresh :
    (p : PeerId) (k : SourceKey) (s : Source) (l : List (SourceKey × Source))
    → lookup k l ≡ none
    → addresses_of p (keys_of (insert k s l))
      ≡ addresses_of p (keys_of l) ++ (if peer_eq k.peer p then k.address ∷ [] else [])
addresses_of-fresh p k s l h =
    rw
      (
        insert_fresh k s l h,
        keys_of-append l ((k, s) ∷ []),
        addresses_of-append p (keys_of l) (k ∷ []),
      )
      refl

module _ (k : SourceKey) (s : Source) (online : List (SourceKey × Source))
    (addresses : List (PeerId × List ℕ)) where
  abbrev new_queue : List ℕ
  new_queue = queue_of k.peer addresses ++ (k.address ∷ [])

  new_source-indexed :
      lookup k online ≡ none
      → Index online addresses
      → (p : PeerId)
      → queue_of p (insert k.peer new_queue addresses)
        ≡ addresses_of p (keys_of (insert k s online))
  new_source-indexed h v p = elim (same-cases k.peer p) [
    | inl i ↦
        subst
          (λ x.
            queue_of x (insert k.peer new_queue addresses)
            ≡ addresses_of x (keys_of (insert k s online)))
          i
          (ap or_empty (lookup-insert_same k.peer new_queue addresses)
            ∙ sym (
                addresses_of-fresh k.peer k s online h
                ∙ rw (same_refl k.peer, ← v.indexed k.peer) refl))
    | inr i ↦
        ap or_empty (lookup-insert_other k.peer p new_queue addresses i)
        ∙ (v.indexed p ∙ sym (addresses_of-fresh p k s online h ∙ rw i (append-nil _)))
  ]

  new_source-Index :
      s.beat.packet.source ≡ k.peer
      → lookup k online ≡ none
      → Index online addresses
      → Index (insert k s online) (insert k.peer new_queue addresses)
  new_source-Index e h v = record {
    online_table = insert-IsTable k s online v.online_table;
    addresses_table = insert-IsTable k.peer new_queue addresses v.addresses_table;
    named = IsNamed-insert k s online e v.named;
    filled = insert-IsFilled k.peer new_queue addresses (append-nonempty _ k.address) v.filled;
    indexed = new_source-indexed h v;
  }

-- A new source comes last in the queue of its peer.
pub introduce_source-IsIndexed :
    (k : SourceKey) (b : Beat) (expires : ℕ) (t : Thread)
    → b.packet.source ≡ k.peer
    → lookup k t.online ≡ none
    → IsIndexed t
    → IsIndexed (introduce_source k b expires t)
unfolding introduce_source
introduce_source-IsIndexed k b expires t e h v =
    subst
      (λ p.
        Index (insert k (record { beat = b; expires = expires; averagers = [] }) t.online)
          (insert p (queue_of p t.addresses ++ (k.address ∷ [])) t.addresses))
      (sym e)
      (new_source-Index k (record { beat = b; expires = expires; averagers = [] }) t.online
        t.addresses e h v)

-- Whatever has expired, both tables forget it.
pub expire_all-IsIndexed :
    (l : List (SourceKey × Source)) (t : Thread) → IsIndexed t → IsIndexed (expire_all l t)
unfolding expire_all
expire_all-IsIndexed [] t v = v
expire_all-IsIndexed ((k, s) ∷ l) t v =
    expire_all-IsIndexed l _
      (if_inv IsIndexed (leb s.expires t.now) (expire_source-IsIndexed k t v) v)

-- A source that is there changes in place.
pub replace-Index :
    (k : SourceKey) (old new : Source) (online : List (SourceKey × Source))
    (addresses : List (PeerId × List ℕ))
    → new.beat.packet.source ≡ k.peer
    → lookup k online ≡ some old
    → Index online addresses
    → Index (insert k new online) addresses
replace-Index k old new online addresses e h v = record {
  online_table = insert-IsTable k new online v.online_table;
  addresses_table = v.addresses_table;
  named = IsNamed-insert k new online e v.named;
  filled = v.filled;
  indexed = λ p. v.indexed p ∙ ap (addresses_of p) (sym (keys_of-insert k new old online h));
}

settle_queue_online :
    (p : PeerId) (r : List ℕ) (t : Thread) → (settle_queue p r t).online ≡ t.online
unfolding settle_queue
settle_queue_online p [] t = refl
settle_queue_online p (b ∷ r) t = refl

pub forget_address_online :
    (p : PeerId) (a : ℕ) (o : Option (List ℕ)) (t : Thread)
    → (forget_address p a o t).online ≡ t.online
unfolding forget_address
forget_address_online p a none t = refl
forget_address_online p a (some []) t = refl
forget_address_online p a (some (b ∷ q)) t = settle_queue_online p (remove_first a (b ∷ q)) t

pub expire_source-lookup :
    (k : SourceKey) (t : Thread) → IsTable t.online → lookup k (expire_source k t).online ≡ none
unfolding expire_source expire_found
expire_source-lookup k t v = go (lookup k t.online) refl
  where
    go : (o : Option Source) → lookup k t.online ≡ o → lookup k (expire_found k o t).online ≡ none
    go none e = e
    go (some s) e =
        rw
          (forget_address_online s.beat.packet.source k.address
            (lookup s.beat.packet.source t.addresses) t)
          (lookup-erase_same k t.online v)

pub refresh_source-IsIndexed :
    (k : SourceKey) (b : Beat) (t : Thread)
    → b.packet.source ≡ k.peer
    → IsIndexed t
    → IsIndexed (refresh_source k b t)
unfolding refresh_source refresh_found
refresh_source-IsIndexed k b t e v = go (lookup k t.online) refl
  where
    go : (o : Option Source) → lookup k t.online ≡ o → IsIndexed (refresh_found k b o t)
    go none h = introduce_source-IsIndexed k b (expiration b t) t e h v
    go (some s) h =
        if_inv IsIndexed (equal_ignoring_transients b.packet s.beat.packet)
          (if_inv
            (λ (u : Thread). Index (insert k (set_beat b (expiration b t) s) u.online) u.addresses)
            (if s.beat.packet.fully_attached
              then not b.packet.fully_attached
              else b.packet.fully_attached)
            (replace-Index k s _ t.online t.addresses e h v)
            (replace-Index k s _ t.online t.addresses e h v))
          (introduce_source-IsIndexed k b (expiration b t) (expire_source k t) e
            (expire_source-lookup k t v.online_table) (expire_source-IsIndexed k t v))
