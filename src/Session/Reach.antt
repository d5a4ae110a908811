-- ===== src/Session/Reach.antt =====
-- Which databases of a `ZGPeerSession` a message from another peer reaches, and what it does to them:
-- `PrivateMessageReceivedFromPeer` and `HandleDatabaseUpdateRequest`.
use zg_choir.Base.{
  subst, ap, sym, ◌∙◌, ◌⊎◌, ◌≢◌, ℕ, zero, suc, ◌≡◌, refl, Bool, true, false, Option, none, some,
  List, [], ◌∷◌, get_elem?, set, arith, inl, inr, Option-cases, Bool-cases, ◌==◌, ==_iff,
}
use zg_choir.Peer.{PeerId, peer_eq}
use zg_choir.Platform.{Platform, DatabaseObject}
use zg_choir.Replica.State.{Replica, Timing, Request}
use zg_choir.Replica.Senior.{handle_database_update_request}
use zg_choir.Session.State.{
  Session, Network, Envelope, user_message, text_message, reset_request, replace_request,
  update_request, junior_update, other_message, is_senior, master_of, schedule_beacon,
}
use zg_choir.Session.Requests.{
  database_request, run_request, find_database, handle_update_request, private_message_received,
}

get-set {ℓ} :
    {A : Type ℓ} (l : List A) (i : ℕ) (x y : A)
    → get_elem? l i ≡ some y
    → get_elem? (set l i x) i ≡ some x
get-set [] i x y e = absurd (cc e)
get-set (z ∷ l) zero x y e = refl
get-set (z ∷ l) (suc i) x y e = get-set l i x y e

get-set_other {ℓ} :
    {A : Type ℓ} (l : List A) (i j : ℕ) (x : A) → i ≢ j → get_elem? (set l i x) j ≡ get_elem? l j
get-set_other [] i j x n = refl
get-set_other (z ∷ l) zero zero x n = absurd (n refl)
get-set_other (z ∷ l) zero (suc j) x n = refl
get-set_other (z ∷ l) (suc i) zero x n = refl
get-set_other (z ∷ l) (suc i) (suc j) x n = get-set_other l i j x (λ e. n (ap suc e))

some_inj {ℓ} : {A : Type ℓ} {a b : A} → some a ≡ some b → a ≡ b
some_inj h = cc

module _ {P : Platform} {D : DatabaseObject P} where
  -- A request is meant for this peer's standing as senior or junior, and one for a junior comes from
  -- the peer that it takes for senior.
  abbrev pub Allowed : PeerId → Bool → Session D → Type 0
  Allowed from for_senior s =
      (for_senior ≡ is_senior s) × ((for_senior ≡ true) ⊎ (peer_eq from s.senior_peer ≡ true))

  -- The message asks this of a database, and is allowed to.
  abbrev pub Asks : PeerId → Envelope P → ℕ → Request P → Session D → Type 0
  Asks from e which q s =
      (for_senior : Bool) × (database_request e ≡ some (for_senior, which, q))
      × Allowed from for_senior s

  -- The database after the request, if it is there.
  abbrev pub answered :
      Network P → Timing → PeerId → Request P → Session D → Option (Replica D) → Option (Replica D)
  answered N c from q s none = none
  answered N c from q s (some r) =
      some (handle_database_update_request (master_of N s) c from q r).1

  -- What a message has done to a database.
  abbrev pub Reached : Network P → Timing → PeerId → Envelope P → Session D → ℕ → Session D → Type 0
  Reached N c from e s which s' =
      (((q : Request P) → ¬ Asks from e which q s)
        × (get_elem? s'.databases which ≡ get_elem? s.databases which))
      ⊎ ((q : Request P) × Asks from e which q s
          × (get_elem? s'.databases which ≡ answered N c from q s (get_elem? s.databases which)))

  run_request_databases :
      (N : Network P) (c : Timing) (from : PeerId) (f : Bool) (w : ℕ) (q : Request P)
      (r : Replica D) (s : Session D)
      → (run_request N c from f w q r s).1.databases
        ≡ set s.databases w (handle_database_update_request (master_of N s) c from q r).1
  unfolding run_request schedule_beacon
  run_request_databases N c from f w q r s = ground arith

  find_database_named :
      (N : Network P) (c : Timing) (from : PeerId) (f : Bool) (w : ℕ) (q : Request P)
      (s : Session D)
      → get_elem? (find_database N c from f w q s).1.databases w
        ≡ answered N c from q s (get_elem? s.databases w)
  unfolding find_database
  find_database_named N c from f w q s = elim (Option-cases (get_elem? s.databases w)) [
    | inl e ↦ rw (e, find_database) e
    | inr (r, e) ↦
        rw (e, find_database, run_request_databases N c from f w q r s)
          (get-set s.databases w _ r e)
  ]

  find_database_other :
      (N : Network P) (c : Timing) (from : PeerId) (f : Bool) (w j : ℕ) (q : Request P)
      (s : Session D)
      → w ≢ j
      → get_elem? (find_database N c from f w q s).1.databases j ≡ get_elem? s.databases j
  unfolding find_database
  find_database_other N c from f w j q s n = elim (Option-cases (get_elem? s.databases w)) [
    | inl e ↦ rw (e, find_database) refl
    | inr (r, e) ↦
        rw (e, find_database, run_request_databases N c from f w q r s)
          (get-set_other s.databases w j _ n)
  ]

  -- The guards of `HandleDatabaseUpdateRequest`.
  handle-cases :
      (N : Network P) (c : Timing) (from : PeerId) (f : Bool) (w : ℕ) (q : Request P)
      (s : Session D)
      → ((¬ Allowed from f s) × ((handle_update_request N c from f w q s).1 ≡ s))
        ⊎ (Allowed from f s
            × ((handle_update_request N c from f w q s).1 ≡ (find_database N c from f w q s).1))
  unfolding handle_update_request
  handle-cases N c from true w q s = elim (Bool-cases (is_senior s)) [
    | inl e ↦ inr ((sym e, inl refl), rw e refl)
    | inr e ↦ inl ((λ a. absurd (cc (a.0, e))), rw e refl)
  ]
  handle-cases N c from false w q s = elim (Bool-cases (is_senior s)) [
    | inl e ↦ inl ((λ a. absurd (cc (a.0, e))), rw e refl)
    | inr e ↦ elim (Bool-cases (peer_eq from s.senior_peer)) [
      | inl k ↦ inr ((sym e, inr k), rw (e, k) refl)
      | inr k ↦
          inl
            ((λ a. elim a.1 [ inl z ↦ absurd (cc z) | inr z ↦ absurd (cc (z, k)) ]), rw (e, k) refl)
    ]
  ]

  Asks-only :
      (from : PeerId) (e : Envelope P) (f : Bool) (w : ℕ) (q : Request P) (s : Session D)
      (which : ℕ) (q' : Request P)
      → database_request e ≡ some (f, w, q)
      → Asks from e which q' s
      → (w ≡ which) × Allowed from f s
  Asks-only from e f w q s which q' asked (f', asks, allowed) =
      let same : (f, w, q) ≡ (f', which, q') = some_inj (sym asked ∙ asks) in
      (
        ap (λ (x : Bool × ℕ × Request P). x.1) same,
        subst (λ b. Allowed from b s) (sym (ap (λ (x : Bool × ℕ × Request P). x.0) same)) allowed,
      )

  handle-Reached :
      (N : Network P) (c : Timing) (from : PeerId) (e : Envelope P) (f : Bool) (w : ℕ)
      (q : Request P) (s : Session D) (which : ℕ)
      → database_request e ≡ some (f, w, q)
      → Reached N c from e s which (handle_update_request N c from f w q s).1
  handle-Reached N c from e f w q s which asked =
      let only = λ (q' : Request P). Asks-only from e f w q s which q' asked in
      let at = λ (x : Session D). get_elem? x.databases which in
      elim (handle-cases N c from f w q s) [
        | inl (barred, same) ↦ inl ((λ q' a. barred (only q' a).1), ap at same)
        | inr (allowed, run) ↦ elim (Bool-cases (w == which)) [
          | inl here ↦
              let e' : w ≡ which = (==_iff w which).0 here in
              inr (
                q,
                (f, subst (λ i. database_request e ≡ some (f, i, q)) e' asked, allowed),
                ap at run
                    ∙ subst
                        (λ i.
                          get_elem? (find_database N c from f w q s).1.databases i
                          ≡ answered N c from q s (get_elem? s.databases i))
                        e' (find_database_named N c from f w q s),
              )
          | inr there ↦
              let n : w ≢ which = λ e'. absurd (cc ((==_iff w which).1 e', there)) in
              inl (
                (λ q' a. n (only q' a).0),
                ap at run ∙ find_database_other N c from f w which q s n,
              )
        ]
      ]

  Asks-nothing :
      (from : PeerId) (e : Envelope P) (which : ℕ) (s : Session D)
      → database_request e ≡ none
      → (q : Request P) → ¬ Asks from e which q s
  Asks-nothing from e which s h q a = absurd (cc (h, a.1))

  -- A message from another peer changes a database of the session exactly as the request that it
  -- carries does, where it names that database, is meant for this peer's standing as senior or
  -- junior, and, if that is a junior's, comes from the peer that it takes for senior. In every
  -- other case the database is left as it was.
  pub message-Reached :
      (N : Network P) (c : Timing) (from : PeerId) (e : Envelope P) (s : Session D) (which : ℕ)
      → Reached N c from e s which (private_message_received N c from e s)
  unfolding private_message_received database_request
  message-Reached N c from (user_message none) s which =
      inl (Asks-nothing from (user_message none) which s refl, refl)
  message-Reached N c from (user_message (some m)) s which =
      inl (Asks-nothing from (user_message (some m)) which s refl, refl)
  message-Reached N c from (text_message none) s which =
      inl (Asks-nothing from (text_message none) which s refl, refl)
  message-Reached N c from (text_message (some t)) s which =
      inl (Asks-nothing from (text_message (some t)) which s refl, refl)
  message-Reached N c from (other_message k) s which =
      inl (Asks-nothing from (other_message k) which s refl, refl)
  message-Reached N c from (reset_request w) s which =
      handle-Reached N c from (reset_request w) _ w _ s which refl
  message-Reached N c from (replace_request w m) s which =
      handle-Reached N c from (replace_request w m) _ w _ s which refl
  message-Reached N c from (update_request w m) s which =
      handle-Reached N c from (update_request w m) _ w _ s which refl
  message-Reached N c from (junior_update none) s which =
      inl (Asks-nothing from (junior_update none) which s refl, refl)
  message-Reached N c from (junior_update (some u)) s which =
      handle-Reached N c from (junior_update (some u)) _ u.database_index _ s which refl
