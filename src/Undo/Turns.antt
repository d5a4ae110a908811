-- ===== src/Undo/Turns.antt =====
-- The order in which an undo and a redo replay the transactions of a sequence.
use Prim.Native.String.{String}
use mathlib.Core.Path.{fun_ext}
use mathlib.Core.List.{reverse, reverse-append}
use zg_choir.Base.{
  ℕ, zero, suc, ◌+◌, ◌-◌, ◌≤◌, ◌≡◌, refl, ap, ◌∙◌, Bool, true, false, List, [], ◌∷◌, ◌++◌, arith,
  if◌then◌else◌,
}
use zg_choir.Undo.Sequences.{Status, fine, Undoable}
use zg_choir.Undo.Travel.{NodeUpdate, Log, and_then, replay_pair, replay_range}

-- The transactions in a row.
unfoldable pub numbers_from : ℕ → ℕ → List ℕ
numbers_from first zero = []
numbers_from first (suc n) = first ∷ numbers_from (first + 1) n

numbers_down : ℕ → ℕ → List ℕ
numbers_down final zero = []
numbers_down final (suc n) = final ∷ numbers_down (final - 1) n

numbers_from-append :
    (first n : ℕ) → numbers_from first (suc n) ≡ numbers_from first n ++ (first + n) ∷ []
unfolding numbers_from
numbers_from-append first zero = ground arith
numbers_from-append first (suc n) =
    let e : first + 1 + n ≡ first + suc n = omega arith in
    ap (λ l. first ∷ l) (rw e at (numbers_from-append (first + 1) n))

numbers_from_few : (first : ℕ) → (numbers_from first 0 ≡ []) × (numbers_from first 1 ≡ first ∷ [])
unfolding numbers_from
numbers_from_few first = (refl, refl)

numbers_down-reverse :
    (first final n : ℕ)
    → final + 1 ≡ first + n
    → numbers_down final n ≡ reverse (numbers_from first n)
unfolding numbers_down
numbers_down-reverse first final zero h = rw ((numbers_from_few first).0) refl
numbers_down-reverse first final (suc zero) h =
    rw ((numbers_from_few first).1) (ap (λ x. x ∷ []) (omega arith))
numbers_down-reverse first final (suc (suc n)) h =
    let e : final ≡ first + suc n = omega arith in
    rw numbers_from-append (
      rw reverse-append (
        ap (λ l. final ∷ l) (numbers_down-reverse first (final - 1) (suc n) (omega arith))
        ∙ ap (λ x. x ∷ reverse (numbers_from first (suc n))) e))

module _ {C T : Type 0} (apply : NodeUpdate C → Undoable T → Undoable T × Status) (log : Log C)
    (is_redo : Bool) (key : String) where
  -- The updates of the transactions in a list, until one fails.
  unfoldable pub replay_all : List ℕ → Undoable T → Undoable T × Status
  replay_all [] s = (s, fine)
  replay_all (id ∷ l) s =
      and_then (replay_pair apply log is_redo key (log.payload_of id) s) (replay_all l)

module _ {C T : Type 0} (apply : NodeUpdate C → Undoable T → Undoable T × Status) (log : Log C)
    (key : String) where
  replay_range-down :
      (first final id n : ℕ)
      → replay_range apply log false key first final id n
        ≡ replay_all apply log false key (numbers_down id n)
  unfolding replay_range replay_all numbers_down
  replay_range-down first final id zero = refl
  replay_range-down first final id (suc n) = fun_ext λ s.
      ap (and_then (replay_pair apply log false key (log.payload_of id) s))
        (replay_range-down first final (id - 1) n)

  replay_range-up :
      (first final id n at_id : ℕ)
      → id ≤ final
      → n ≤ id + 1 - first
      → first ≤ id + 1
      → at_id ≡ first + (final - id)
      → replay_range apply log true key first final id n
        ≡ replay_all apply log true key (numbers_from at_id n)
  unfolding replay_range replay_all numbers_from
  replay_range-up first final id zero at_id a b c e = refl
  replay_range-up first final id (suc zero) at_id a b c e = fun_ext λ s. rw e refl
  replay_range-up first final id (suc (suc n)) at_id a b c e = fun_ext λ s. rw (← e) (
      ap (and_then (replay_pair apply log true key (log.payload_of at_id) s)) (
        replay_range-up first final (id - 1) (suc n) (at_id + 1) (omega arith) (omega arith)
          (omega arith) (omega arith)))

  -- The loop of an undo replays the transactions of a sequence from the last to the first, and
  -- that of a redo from the first to the last, each one once: where the sequence does not end
  -- before it starts.
  pub replay_range-replay_all :
      (is_redo : Bool) (first final : ℕ) (s : Undoable T)
      → first ≤ final
      → let rounds = suc (final - first) in
        let ids = numbers_from first rounds in
        replay_range apply log is_redo key first final final rounds s
        ≡ replay_all apply log is_redo key (if is_redo then ids else reverse ids) s
  replay_range-replay_all true first final s h =
      ap (λ f. f s)
        (replay_range-up first final final (suc (final - first)) first (omega arith) (omega arith)
          (omega arith) (omega arith))
  replay_range-replay_all false first final s h =
      let rounds = suc (final - first) in
      ap (λ f. f s) (replay_range-down first final final rounds)
      ∙ ap (λ l. replay_all apply log false key l s)
          (numbers_down-reverse first final rounds (omega arith))
