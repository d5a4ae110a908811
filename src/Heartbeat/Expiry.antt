-- ===== src/Heartbeat/Expiry.antt =====
-- The sources that the pulse of `PZGHeartbeatThreadState` takes for offline: those that have been
-- silent for too long, and no other.
use zg_choir.Base.{
  ℕ, ◌≡◌, refl, true, false, Option, none, some, List, [], ◌∷◌, if◌then◌else◌, leb, inl, inr,
  if_true, if_false, if_inv, subst, ◌∙◌, Bool-cases,
}
use zg_choir.Peer.{PeerId}
use zg_choir.Assoc.{peer_key, number_key, same_key, lookup}
use zg_choir.Assoc.Laws.{same-cases, lookup_here, lookup_later}
use zg_choir.Assoc.Distinct.{IsTable, erase-IsTable, lookup-erase_other}
use zg_choir.Heartbeat.State.{SourceKey, Source, Thread, source_key}
use zg_choir.Heartbeat.Sources.{
  remove_first, settle_queue, forget_address, expire_found, expire_source, expire_all,
}
use zg_choir.Heartbeat.Online.{forget_address_online, expire_source-lookup}

-- What is left of a source at a time, and of one that a table holds beside the sources to look at.
abbrev pub survives : ℕ → Option Source → Option Source
survives now none = none
survives now (some s) = if leb s.expires now then none else some s

abbrev kept : ℕ → Option Source → Option Source → Option Source
kept now none o = o
kept now (some s) o = if leb s.expires now then none else o

kept_same : (now : ℕ) (o : Option Source) → kept now o o ≡ survives now o
kept_same now none = refl
kept_same now (some s) = refl

settle_queue_now : (p : PeerId) (r : List ℕ) (t : Thread) → (settle_queue p r t).now ≡ t.now
unfolding settle_queue
settle_queue_now p [] t = refl
settle_queue_now p (b ∷ r) t = refl

forget_address_now :
    (p : PeerId) (a : ℕ) (o : Option (List ℕ)) (t : Thread) → (forget_address p a o t).now ≡ t.now
unfolding forget_address
forget_address_now p a none t = refl
forget_address_now p a (some []) t = refl
forget_address_now p a (some (b ∷ q)) t = settle_queue_now p (remove_first a (b ∷ q)) t

expire_source_now : (k : SourceKey) (t : Thread) → (expire_source k t).now ≡ t.now
unfolding expire_source expire_found
expire_source_now k t = go (lookup k t.online)
  where
    go : (o : Option Source) → (expire_found k o t).now ≡ t.now
    go none = refl
    go (some s) = forget_address_now s.beat.packet.source k.address _ t

expire_source-lookup_other :
    (k q : SourceKey) (t : Thread)
    → same_key k q ≡ false
    → lookup q (expire_source k t).online ≡ lookup q t.online
unfolding expire_source expire_found
expire_source-lookup_other k q t h = go (lookup k t.online)
  where
    go : (o : Option Source) → lookup q (expire_found k o t).online ≡ lookup q t.online
    go none = refl
    go (some s) =
        rw
          (forget_address_online s.beat.packet.source k.address
            (lookup s.beat.packet.source t.addresses) t)
          (lookup-erase_other k q t.online h)

expire_source-IsTable :
    (k : SourceKey) (t : Thread) → IsTable t.online → IsTable (expire_source k t).online
unfolding expire_source expire_found
expire_source-IsTable k t v = go (lookup k t.online)
  where
    go : (o : Option Source) → IsTable (expire_found k o t).online
    go none = v
    go (some s) =
        rw
          (forget_address_online s.beat.packet.source k.address
            (lookup s.beat.packet.source t.addresses) t)
          (erase-IsTable k t.online v)

-- One round of the loop.
module _ (k q : SourceKey) (s : Source) (l : List (SourceKey × Source)) (t : Thread)
    (h : lookup q l ≡ none) where
  Q : Thread → Type 0
  Q u =
      kept u.now (lookup k l) (lookup k u.online)
      ≡ kept t.now (lookup k ((q, s) ∷ l)) (lookup k t.online)

  expired_round : IsTable t.online → leb s.expires t.now ≡ true → Q (expire_source q t)
  unfolding Q
  expired_round v e = elim (same-cases q k) [
    | inl i ↦
        rw
          (
            expire_source_now q t,
            subst (λ x. lookup x l ≡ none) i h,
            subst (λ x. lookup x (expire_source q t).online ≡ none) i (expire_source-lookup q t v),
            lookup_here k q s l i,
            e,
          )
          refl
    | inr i ↦
        rw (expire_source_now q t, expire_source-lookup_other q k t i, lookup_later k q s l i) refl
  ]

  silent_round : leb s.expires t.now ≡ false → Q t
  unfolding Q
  silent_round e = elim (same-cases q k) [
    | inl i ↦ rw (subst (λ x. lookup x l ≡ none) i h, lookup_here k q s l i, e) refl
    | inr i ↦ rw (lookup_later k q s l i) refl
  ]

expire_all_lem :
    (k : SourceKey) (l : List (SourceKey × Source)) (t : Thread)
    → IsTable l
    → IsTable t.online
    → lookup k (expire_all l t).online ≡ kept t.now (lookup k l) (lookup k t.online)
unfolding expire_all Q lookup
expire_all_lem k [] t h v = refl
expire_all_lem k ((q, s) ∷ l) t h v =
    expire_all_lem k l (if leb s.expires t.now then expire_source q t else t) h.1 (
      if_inv (λ (u : Thread). IsTable u.online) (leb s.expires t.now) (expire_source-IsTable q t v)
        v)
    ∙ elim (Bool-cases (leb s.expires t.now)) [
      | inl e ↦
          if_true (Q k q s l t h.0) (leb s.expires t.now) _ _ e (expired_round k q s l t h.0 v e)
      | inr e ↦
          if_false (Q k q s l t h.0) (leb s.expires t.now) _ _ e (silent_round k q s l t h.0 e)
    ]

-- After the loop of a pulse that expires sources, the sources are those that had not expired, each
-- as it was: where each source had one entry.
pub expire_all-lookup :
    (k : SourceKey) (t : Thread)
    → IsTable t.online
    → lookup k (expire_all t.online t).online ≡ survives t.now (lookup k t.online)
expire_all-lookup k t v = expire_all_lem k t.online t v v ∙ kept_same t.now (lookup k t.online)
