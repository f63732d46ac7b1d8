-- ===== src/Base/Bytes.antt =====
-- Byte strings as lists of numbers, and the big-endian numbers of Python's `struct`.
use Prim.Native.Nat.{ℕ, ◌+◌, ◌-◌, ◌*◌, ◌/◌, ◌%◌, ◌^◌}
use mathlib.Core.Path.{◌≡◌, refl}
use mathlib.Core.Bool.{Bool, true, false, ◌&&◌}
use mathlib.Core.Option.{Option, none, some}
use mathlib.Core.List.{List, [], ◌∷◌}
use native.Mathlib.Omega.{arith}
use v3xctrl.Base.Tests.{nat_beq, ltb, if◌then◌else◌}

abbrev pub Bytes : Type 0
Bytes = List ℕ

-- `a == b` on byte strings
unfoldable pub same_bytes : Bytes → Bytes → Bool
same_bytes [] [] = true
same_bytes (a ∷ as') (b ∷ bs) = nat_beq a b && same_bytes as' bs
same_bytes _ _ = false

-- `data.startswith(prefix)`
unfoldable pub starts_with : Bytes → Bytes → Bool
starts_with [] d = true
starts_with (p ∷ ps) [] = false
starts_with (p ∷ ps) (x ∷ d) = nat_beq p x && starts_with ps d

-- `struct.pack("!H", n)`, for n < 2^16
unfoldable pub pack_u16 : ℕ → Bytes
pack_u16 n = n / 256 ∷ n % 256 ∷ []

-- The value of big-endian bytes, as `struct.unpack` of an unsigned format reads them.
unfoldable pub be_value : ℕ → Bytes → ℕ
be_value acc [] = acc
be_value acc (b ∷ bs) = be_value (acc * 256 + b) bs

-- `struct.pack(">Q", n)`, for n < 2^64
unfoldable pub pack_u64 : ℕ → Bytes
pack_u64 n =
    n / 2 ^ 56
    ∷ n / 2 ^ 48 % 256
    ∷ n / 2 ^ 40 % 256
    ∷ n / 2 ^ 32 % 256
    ∷ n / 2 ^ 24 % 256
    ∷ n / 2 ^ 16 % 256
    ∷ n / 2 ^ 8 % 256
    ∷ n % 256
    ∷ []

pub be_value-pack_u16 : (n : ℕ) → be_value 0 (pack_u16 n) ≡ n
unfolding be_value pack_u16
be_value-pack_u16 n = omega arith

pub be_value-pack_u64 : (n : ℕ) → be_value 0 (pack_u64 n) ≡ n
unfolding be_value pack_u64
be_value-pack_u64 n = omega arith

pub same_bytes_refl : (d : Bytes) → same_bytes d d ≡ true
unfolding same_bytes
same_bytes_refl [] = refl
same_bytes_refl (x ∷ d) = ground (arith, same_bytes_refl d)

-- A signed number: `negsuc n` is -(n + 1).
pub data ℤ : Type 0 where
  pos : ℕ → ℤ
  negsuc : ℕ → ℤ

-- `struct.pack(">q", v)`; `none` is the struct.error out of range.
unfoldable pub pack_i64 : ℤ → Option Bytes
pack_i64 (pos n) = if ltb n (2 ^ 63) then some (pack_u64 n) else none
pack_i64 (negsuc n) = if ltb n (2 ^ 63) then some (pack_u64 (2 ^ 64 - 1 - n)) else none

-- `struct.unpack(">q", data)`, of eight bytes
unfoldable pub unpack_i64 : Bytes → ℤ
unpack_i64 d = let v = be_value 0 d in if ltb v (2 ^ 63) then pos v else negsuc (2 ^ 64 - 1 - v)

pub unpack-pack_i64 : (v : ℤ) (d : Bytes) → pack_i64 v ≡ some d → unpack_i64 d ≡ v
unfolding pack_i64 unpack_i64
unpack-pack_i64 (pos n) d h = ground (arith, be_value-pack_u64 n)
unpack-pack_i64 (negsuc n) d h = ground (arith, be_value-pack_u64 (2 ^ 64 - 1 - n))

-- The bytes that `pack_i64` gives are eight.
pub pack_i64-is_pack : (v : ℤ) (d : Bytes) → pack_i64 v ≡ some d → (n : ℕ) × (d ≡ pack_u64 n)
unfolding pack_i64
pack_i64-is_pack (pos n) d h = (n, ground arith)
pack_i64-is_pack (negsuc n) d h = (2 ^ 64 - 1 - n, ground arith)
