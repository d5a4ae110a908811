-- ===== src/Assoc.antt =====
-- A table in the order in which its keys came, as a list of pairs: what the program keeps in a
-- MUSCLE `Hashtable`, whose iteration follows that order.
pub mod Laws
pub mod Distinct
pub mod Again
use Prim.Native.String.{String}
use text.Mathlib.Text.{◌==◌ as str_eq}
use text.Mathlib.TextEquality.{eq_iff}
use zg_choir.Base.{
  ℕ, ◌≡◌, ◌↔◌, Bool, true, false, Option, none, some, List, [], ◌∷◌, ◌==◌, ==_iff, if◌then◌else◌,
  arith, is_some,
}
use zg_choir.Peer.{PeerId, peer_eq, peer_eq_iff}

-- The equality test of a key type.
pub record Key (K : Type 0) : Type 0 where
  pub same : K → K → Bool
  pub same_iff : (a b : K) → (same a b ≡ true) ↔ (a ≡ b)

instance abbrev pub number_key : Key ℕ
number_key = record { same = ◌==◌; same_iff = ==_iff }

instance abbrev pub peer_key : Key PeerId
peer_key = record { same = peer_eq; same_iff = peer_eq_iff }

instance abbrev pub text_key : Key String
text_key = record { same = str_eq; same_iff = eq_iff }

abbrev pub same_key : {K : Type 0} ⦃k : Key K⦄ → K → K → Bool
same_key ⦃k⦄ = k.same

module _ {K : Type 0} ⦃k : Key K⦄ where
  -- `Contains` on a list of keys.
  unfoldable pub holds : K → List K → Bool
  holds p [] = false
  holds p (q ∷ l) = let rest = holds p l in if same_key q p then true else rest

module _ {K V : Type 0} ⦃k : Key K⦄ where
  -- `Get`.
  unfoldable pub lookup : K → List (K × V) → Option V
  lookup p [] = none
  lookup p ((q, v) ∷ l) = let rest = lookup p l in if same_key q p then some v else rest

  -- `Put`: a key that is there keeps its place.
  unfoldable pub insert : K → V → List (K × V) → List (K × V)
  insert p v [] = (p, v) ∷ []
  insert p v ((q, w) ∷ l) =
      let rest = (q, w) ∷ insert p v l in if same_key q p then (q, v) ∷ l else rest

  -- `Remove`.
  unfoldable pub erase : K → List (K × V) → List (K × V)
  erase p [] = []
  erase p ((q, w) ∷ l) = let rest = (q, w) ∷ erase p l in if same_key q p then l else rest

  -- `ContainsKey`.
  abbrev pub has : K → List (K × V) → Bool
  has p l = is_some (lookup p l)

-- The keys in order.
abbrev pub keys_of : {K V : Type 0} → List (K × V) → List K
keys_of [] = []
keys_of ((q, w) ∷ l) = q ∷ keys_of l
