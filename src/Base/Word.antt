-- ===== src/Base/Word.antt =====
-- Unsigned machine words: a w-bit value is a number, and its wrap-around is written out.
use Prim.Native.Nat.{ℕ, ◌+◌, ◌-◌, ◌%◌, ◌^◌}
use mathlib.Core.Path.{◌≡◌}
use native.Mathlib.Omega.{arith}

abbrev pub add64 : ℕ → ℕ → ℕ
add64 a b = (a + b) % 2 ^ 64

-- For operands below 2 ^ 64.
abbrev pub sub64 : ℕ → ℕ → ℕ
sub64 a b = (a + (2 ^ 64 - b % 2 ^ 64)) % 2 ^ 64

abbrev pub max_u64 : ℕ
max_u64 = 2 ^ 64 - 1

abbrev pub add32 : ℕ → ℕ → ℕ
add32 a b = (a + b) % 2 ^ 32

abbrev pub sub32 : ℕ → ℕ → ℕ
sub32 a b = (a + (2 ^ 32 - b % 2 ^ 32)) % 2 ^ 32

-- What was added to a running total modulo 2 ^ 64 can be taken off again.
pub sub64-add64 : (a b : ℕ) → sub64 (add64 a b) b ≡ a % 2 ^ 64
sub64-add64 a b = omega arith

pub sub32-add32 : (a b : ℕ) → sub32 (add32 a b) b ≡ a % 2 ^ 32
sub32-add32 a b = omega arith
