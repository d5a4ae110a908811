-- ===== src/Wire/Codec.antt =====
-- MUSCLE's `DataFlattener` and `DataUnflattener`, as the flattened types use them, and the
-- flattening of `ZGPeerID` (include/zg/ZGPeerID.h).
use zg_choir.Base.{
  ℕ, zero, suc, ◌+◌, ◌*◌, ◌^◌, ◌-◌, ap, ◌<◌, ◌≡◌, refl, Option, none, some, List, [], ◌∷◌, ◌++◌,
  length, take, drop, min, arith, All,
}
use zg_choir.Peer.{PeerId}

-- Integers in a number of bytes, written in front of what is written next, and read back. A read
-- past the end fails. `checksum` is `CalculatePODChecksums`.
pub record Codec : Type 0 where
  pub put : ℕ → ℕ → List ℕ → List ℕ
  pub get : ℕ → List ℕ → Option (ℕ × List ℕ)
  pub checksum : List ℕ → Option (List ℕ) → ℕ
  pub get-put : (w n : ℕ) (rest : List ℕ) → n < 256 ^ w → get w (put w n rest) ≡ some (n, rest)
  pub length-put : (w n : ℕ) (rest : List ℕ) → length (put w n rest) ≡ w + length rest
  pub checksum_fits : (l : List ℕ) (b : Option (List ℕ)) → checksum l b < 256 ^ 4

-- A value fits in so many bytes.
abbrev pub Fits : ℕ → ℕ → Type 0
Fits w n = n < 256 ^ w

-- What follows a read that may fail.
unfoldable pub read :
    {A B : Type 0} → Option (A × List ℕ) → (A → List ℕ → Option (B × List ℕ)) → Option (B × List ℕ)
read none k = none
read (some (a, b)) k = k a b

-- A loop of `ReadFlat` calls.
unfoldable pub read_many :
    {A : Type 0} → (List ℕ → Option (A × List ℕ)) → ℕ → List ℕ → Option (List A × List ℕ)
read_many item zero b = some ([], b)
read_many item (suc n) b =
    read (item b) (λ a b'. read (read_many item n b') (λ l b''. some (a ∷ l, b'')))

-- A loop of `WriteFlat` calls.
unfoldable pub write_many : {A : Type 0} → (A → List ℕ → List ℕ) → List A → List ℕ → List ℕ
write_many item [] rest = rest
write_many item (a ∷ l) rest = item a (write_many item l rest)

-- `SaturatingUnsignedMultiply` on 32-bit operands.
abbrev pub saturating_multiply : ℕ → ℕ → ℕ
saturating_multiply a b = min (a * b) (2 ^ 32 - 1)

-- A loop reads back what a loop wrote, if each item reads back.
pub read_many-write_many :
    {A : Type 0} (Q : A → Type 0) (get : List ℕ → Option (A × List ℕ)) (put : A → List ℕ → List ℕ)
    → ((a : A) (rest : List ℕ) → Q a → get (put a rest) ≡ some (a, rest))
    → (l : List A) (rest : List ℕ) → All Q l
    → read_many get (length l) (write_many put l rest) ≡ some (l, rest)
unfolding read_many write_many read
read_many-write_many Q get put back [] rest h = refl
read_many-write_many Q get put back (a ∷ l) rest h =
    rw
      (
        back a (write_many put l rest) h.0,
        read_many,
        read,
        read_many-write_many Q get put back l rest h.1,
      )
      refl

-- A loop over items of one size writes that size for each.
pub length-write_many :
    {A : Type 0} (size : ℕ) (put : A → List ℕ → List ℕ)
    → ((a : A) (rest : List ℕ) → length (put a rest) ≡ size + length rest)
    → (l : List A) (rest : List ℕ) → length (write_many put l rest) ≡ length l * size + length rest
unfolding write_many
length-write_many size put h [] rest = omega arith
length-write_many size put h (a ∷ l) rest =
    rw (h a (write_many put l rest), length-write_many size put h l rest) (omega arith)

pub take-append : (b rest : List ℕ) → take (length b) (b ++ rest) ≡ b
take-append [] rest = refl
take-append (x ∷ b) rest = ap (x ∷◌) (take-append b rest)

pub drop-append : (b rest : List ℕ) → drop (length b) (b ++ rest) ≡ rest
drop-append [] rest = refl
drop-append (x ∷ b) rest = drop-append b rest

module _ (W : Codec) where
  -- `ZGPeerID::Flatten` and `ZGPeerID::Unflatten`.
  unfoldable pub flatten_id : PeerId → List ℕ → List ℕ
  flatten_id p rest = W.put 8 p.high (W.put 8 p.low rest)

  unfoldable pub unflatten_id : List ℕ → Option (PeerId × List ℕ)
  unflatten_id b =
      read (W.get 8 b)
        (λ high b. read (W.get 8 b) (λ low b. some (record { high = high; low = low }, b)))

  abbrev pub IsSizedId : PeerId → Type 0
  IsSizedId p = Fits 8 p.high × Fits 8 p.low

  pub unflatten-flatten_id :
      (p : PeerId) (rest : List ℕ) → IsSizedId p → unflatten_id (flatten_id p rest) ≡ some (p, rest)
  unfolding unflatten_id flatten_id read
  unflatten-flatten_id p rest h =
      rw (W.get-put 8 p.high _ h.0, read, W.get-put 8 p.low _ h.1, read) refl
