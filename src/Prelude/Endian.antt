-- ===== src/Prelude/Endian.antt =====
-- Numbers as bytes, in network order (big-endian) and in little-endian order.
use Prim.Native.Nat.{ℕ, ◌+◌, ◌*◌, ◌/◌, ◌%◌, ◌^◌, ◌<◌}
use mathlib.Core.Path.{◌≡◌}
use mathlib.Core.List.{List, [], ◌∷◌}
use native.Mathlib.Omega.{arith}

abbrev pub Bytes : Type 0
Bytes = List ℕ

-- `from_be_bytes` of a slice of any length.
abbrev pub be_from : ℕ → Bytes → ℕ
be_from acc [] = acc
be_from acc (b ∷ bs) = be_from (acc * 256 + b) bs

abbrev pub from_be : Bytes → ℕ
from_be = be_from 0

-- `to_be_bytes` of a `u16`, a `u32` and a `u64`.
abbrev pub to_be2 : ℕ → Bytes
to_be2 n = n / 256 % 256 ∷ n % 256 ∷ []

abbrev pub to_be4 : ℕ → Bytes
to_be4 n = n / 2 ^ 24 % 256 ∷ n / 2 ^ 16 % 256 ∷ n / 2 ^ 8 % 256 ∷ n % 256 ∷ []

abbrev pub to_be8 : ℕ → Bytes
to_be8 n =
    n / 2 ^ 56 % 256
    ∷ n / 2 ^ 48 % 256
    ∷ n / 2 ^ 40 % 256
    ∷ n / 2 ^ 32 % 256
    ∷ n / 2 ^ 24 % 256
    ∷ n / 2 ^ 16 % 256
    ∷ n / 2 ^ 8 % 256
    ∷ n % 256
    ∷ []

pub from_be-to_be2 : (n : ℕ) → n < 2 ^ 16 → from_be (to_be2 n) ≡ n
from_be-to_be2 n h = omega arith

pub from_be-to_be4 : (n : ℕ) → n < 2 ^ 32 → from_be (to_be4 n) ≡ n
from_be-to_be4 n h = omega arith

pub from_be-to_be8 : (n : ℕ) → n < 2 ^ 64 → from_be (to_be8 n) ≡ n
from_be-to_be8 n h = omega arith

-- A `u16` from its two bytes, in either order.
abbrev pub be16 : ℕ → ℕ → ℕ
be16 hi lo = hi * 256 + lo

abbrev pub le16 : ℕ → ℕ → ℕ
le16 lo hi = hi * 256 + lo
