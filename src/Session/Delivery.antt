-- ===== src/Session/Delivery.antt =====
-- That what a `ZGPeerSession` receives keeps the books of its databases.
use zg_choir.Base.{
  subst, ℕ, zero, suc, ◌≡◌, refl, Bool, none, some, List, [], ◌∷◌, get_elem?, set, All, arith, inl,
  inr, Option-cases,
}
use zg_choir.Peer.{PeerId}
use zg_choir.Platform.{Platform, DatabaseObject}
use zg_choir.Replica.State.{Replica, Timing, Request}
use zg_choir.Replica.Invariant.{IsConsistent}
use zg_choir.Replica.Books.{IsFreshFor, request-IsConsistent}
use zg_choir.Session.State.{
  Session, Network, Envelope, user_message, text_message, reset_request, replace_request,
  update_request, junior_update, other_message, master_of, schedule_beacon,
}
use zg_choir.Session.Requests.{
  database_request, run_request, find_database, handle_update_request, private_message_received,
}

some_inj {ℓ} : {A : Type ℓ} {a b : A} → some a ≡ some b → a ≡ b
some_inj h = cc

All-get {ℓ κ} :
    {A : Type ℓ} (Q : A → Type κ) (l : List A) (i : ℕ) (x : A)
    → All Q l
    → get_elem? l i ≡ some x
    → Q x
All-get Q [] i x h e = absurd cc
All-get Q (y ∷ l) zero x h e = subst Q (some_inj e) h.0
All-get Q (y ∷ l) (suc i) x h e = All-get Q l i x h.1 e

All-set {ℓ κ} :
    {A : Type ℓ} (Q : A → Type κ) (l : List A) (i : ℕ) (x : A) → All Q l → Q x → All Q (set l i x)
All-set Q [] i x h q = h
All-set Q (y ∷ l) zero x h q = (q, h.1)
All-set Q (y ∷ l) (suc i) x h q = (h.0, All-set Q l i x h.1 q)

module _ {P : Platform} {D : DatabaseObject P} where
  -- Each database's books are in order.
  abbrev pub AllConsistent : Session D → Type 0
  AllConsistent s = All IsConsistent s.databases

  -- The id that a message will be logged under is free in the database that it names.
  abbrev pub IsFreshIn : Envelope P → Session D → Type 0
  IsFreshIn e s =
      (for_senior : Bool) (which : ℕ) (q : Request P) (r : Replica D)
      → database_request e ≡ some (for_senior, which, q)
      → get_elem? s.databases which ≡ some r
      → IsFreshFor q r

  run_request-AllConsistent :
      (N : Network P) (c : Timing) (from : PeerId) (for_senior : Bool) (which : ℕ) (q : Request P)
      (r : Replica D) (s : Session D)
      → IsFreshFor q r
      → IsConsistent r
      → AllConsistent s
      → AllConsistent (run_request N c from for_senior which q r s).1
  unfolding run_request schedule_beacon
  run_request-AllConsistent N c from for_senior which q r s fresh v h = ground (
    arith,
    All-set IsConsistent s.databases which _ h
        (request-IsConsistent (master_of N s) c from q r fresh v),
  )

  find_database-AllConsistent :
      (N : Network P) (c : Timing) (from : PeerId) (for_senior : Bool) (which : ℕ) (q : Request P)
      (s : Session D)
      → ((r : Replica D) → get_elem? s.databases which ≡ some r → IsFreshFor q r)
      → AllConsistent s
      → AllConsistent (find_database N c from for_senior which q s).1
  unfolding find_database
  find_database-AllConsistent N c from for_senior which q s fresh h =
      elim (Option-cases (get_elem? s.databases which)) [
        | inl e ↦ rw (e, find_database) h
        | inr (r, e) ↦
            rw (e, find_database)
              (run_request-AllConsistent N c from for_senior which q r s (fresh r e)
                (All-get IsConsistent s.databases which r h e) h)
      ]

  handle-AllConsistent :
      (N : Network P) (c : Timing) (from : PeerId) (for_senior : Bool) (which : ℕ) (q : Request P)
      (s : Session D)
      → ((r : Replica D) → get_elem? s.databases which ≡ some r → IsFreshFor q r)
      → AllConsistent s
      → AllConsistent (handle_update_request N c from for_senior which q s).1
  unfolding handle_update_request
  handle-AllConsistent N c from for_senior which q s fresh h =
      ground (arith, find_database-AllConsistent N c from for_senior which q s fresh h)

  -- A message from another peer keeps the books of every database of the session: where the id
  -- that it will be logged under is free in the database that it names.
  pub message-AllConsistent :
      (N : Network P) (c : Timing) (from : PeerId) (e : Envelope P) (s : Session D)
      → IsFreshIn e s
      → AllConsistent s
      → AllConsistent (private_message_received N c from e s)
  unfolding private_message_received database_request
  message-AllConsistent N c from (user_message none) s fresh h = h
  message-AllConsistent N c from (user_message (some m)) s fresh h = h
  message-AllConsistent N c from (text_message none) s fresh h = h
  message-AllConsistent N c from (text_message (some t)) s fresh h = h
  message-AllConsistent N c from (other_message k) s fresh h = h
  message-AllConsistent N c from (reset_request w) s fresh h =
      handle-AllConsistent N c from _ w _ s (λ r. fresh _ w _ r refl) h
  message-AllConsistent N c from (replace_request w m) s fresh h =
      handle-AllConsistent N c from _ w _ s (λ r. fresh _ w _ r refl) h
  message-AllConsistent N c from (update_request w m) s fresh h =
      handle-AllConsistent N c from _ w _ s (λ r. fresh _ w _ r refl) h
  message-AllConsistent N c from (junior_update none) s fresh h = h
  message-AllConsistent N c from (junior_update (some u)) s fresh h =
      handle-AllConsistent N c from _ u.database_index _ s (λ r. fresh _ _ _ r refl) h
