-- ===== src/Mux/Filters.antt =====
-- The filter that a gateway sends upstream for all subscriptions to one path: the loop of
-- `UpdateSubscription` in src/messagetree/gateway/MuxTreeGateway.cpp.
use mathlib.Core.List.{reverse, reverse-cons, reverse-reverse}
use zg_choir.Base.{
  ℕ, ◌≡◌, ◌≢◌, refl, sym, ap, ◌∙◌, Bool, true, false, ◌||◌, Option, none, some, List, [], ◌∷◌, ◌++◌,
  arith,
}

-- One subscription to a path. A filter is named by its reference, as the code compares them.
pub record Subscription : Type 0 where
  pub subscriber : ℕ
  pub filter : Option ℕ
  pub flags : ℕ

-- What is sent: a filter as it is, or an `OrQueryFilter`. Nothing stands for no filter.
pub data Sent : Type 0 where
  only : ℕ → Sent
  any_of : List ℕ → Sent

unfoldable pub add_filter : ℕ → Option Sent → Sent
add_filter f none = only f
add_filter f (some (only g)) = any_of (g ∷ f ∷ [])
add_filter f (some (any_of l)) = any_of (l ++ f ∷ [])

-- The loop goes through the queue from its end. A subscription without a filter ends it.
unfoldable pub union_filter : Option Sent → List Subscription → Option Sent
unfolding add_filter
union_filter sent [] = sent
union_filter sent (s ∷ l) = elim s.filter [
  | none ↦ none
  | some f ↦ union_filter (some (add_filter f sent)) l
]

unfoldable pub send_filter : List Subscription → Option Sent
unfolding union_filter
send_filter q = union_filter none (reverse q)

-- Whether some element passes a test.
unfoldable pub any : {A : Type 0} → (A → Bool) → List A → Bool
any p [] = false
any p (x ∷ l) = p x || any p l

any-append : {A : Type 0} (p : A → Bool) (xs ys : List A) → any p (xs ++ ys) ≡ any p xs || any p ys
unfolding any
any-append p [] ys = refl
any-append p (x ∷ xs) ys = ground (arith, any-append p xs ys)

any-reverse : {A : Type 0} (p : A → Bool) (xs : List A) → any p (reverse xs) ≡ any p xs
unfolding any
any-reverse p [] = refl
any-reverse p (x ∷ xs) =
    ap (any p) (reverse-cons x xs)
    ∙ any-append p (reverse xs) (x ∷ [])
    ∙ ground (arith, any-reverse p xs)

-- `test` is what a filter says of a node, and `joined` what an `OrQueryFilter` says.
module _ (test : ℕ → Bool) (joined : List ℕ → Bool) where
  -- Whether a subscription is for the node.
  abbrev pub wants : Subscription → Bool
  wants s = elim s.filter [ none ↦ true | some f ↦ test f ]

  abbrev pub passes : Option Sent → Bool
  passes none = true
  passes (some (only f)) = test f
  passes (some (any_of l)) = joined l

  module _ (law : (l : List ℕ) → joined l ≡ any test l) where
    add_filter-passes :
        (f : ℕ) (x : Sent) → passes (some (add_filter f (some x))) ≡ passes (some x) || test f
    unfolding add_filter any
    add_filter-passes f (only g) = law (g ∷ f ∷ []) ∙ ground arith
    add_filter-passes f (any_of l) =
        law (l ++ f ∷ []) ∙ any-append test l (f ∷ []) ∙ ground (arith, law l)

    union_filter-passes :
        (l : List Subscription) (x : Sent)
        → passes (union_filter (some x) l) ≡ passes (some x) || any wants l
    unfolding union_filter any
    union_filter-passes [] x = ground arith
    union_filter-passes (s ∷ l) x = by_filter s.filter refl (union_filter-passes l)
      where
        by_filter :
            (o : Option ℕ)
            → s.filter ≡ o
            → ((y : Sent) → passes (union_filter (some y) l) ≡ passes (some y) || any wants l)
            → passes (union_filter (some x) (s ∷ l)) ≡ passes (some x) || any wants (s ∷ l)
        by_filter none e ih = rw e (ground arith)
        by_filter (some f) e ih =
            rw e (ih (add_filter f (some x)) ∙ ground (arith, add_filter-passes f x))

    union_filter-wants :
        (s : Subscription) (l : List Subscription)
        → passes (union_filter none (s ∷ l)) ≡ any wants (s ∷ l)
    unfolding union_filter any
    union_filter-wants s l = by_filter s.filter refl
      where
        by_filter :
            (o : Option ℕ) → s.filter ≡ o → passes (union_filter none (s ∷ l)) ≡ any wants (s ∷ l)
        by_filter none e = rw e refl
        by_filter (some f) e = rw e (union_filter-passes l (only f))

    -- The filter that the gateway sends upstream for a path lets a node pass just when one of the
    -- subscriptions to the path would: where there is a subscription, and an OrQueryFilter passes
    -- what one of its children passes.
    pub send_filter-passes : (q : List Subscription) → q ≢ [] → passes (send_filter q) ≡ any wants q
    unfolding send_filter
    send_filter-passes q ne = by_list (reverse q) refl
      where
        by_list :
            (l : List Subscription)
            → reverse q ≡ l
            → passes (union_filter none (reverse q)) ≡ any wants q
        by_list [] e = absurd (ne (sym (reverse-reverse q) ∙ ap reverse e))
        by_list (s ∷ l) e =
            ap (λ x. passes (union_filter none x)) e
            ∙ union_filter-wants s l
            ∙ ap (any wants) (sym e)
            ∙ any-reverse wants q
