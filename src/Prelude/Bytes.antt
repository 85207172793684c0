-- ===== src/Prelude/Bytes.antt =====
-- Byte slices as lists of numbers, and the words of encoding/binary in both byte orders.
use Prim.Native.Nat.{ℕ, ◌+◌, ◌*◌, ◌/◌, ◌%◌, ◌^◌, ◌<◌}
use mathlib.Core.Path.{◌≡◌}
use mathlib.Core.List.{List, [], ◌∷◌, ◌++◌}
use mathlib.Core.Option.{Option, none, some}
use native.Mathlib.Omega.{arith}
use clove.Prelude.Lists.{length, length-append}

pub data ByteOrder : Type 0 where
  big_endian little_endian : ByteOrder

-- `PutUint16`, `PutUint32` and `PutUint64` of binary.ByteOrder, of a value in range.
unfoldable pub put_uint16 : ByteOrder → ℕ → List ℕ
put_uint16 big_endian v = v / 2 ^ 8 % 256 ∷ v % 256 ∷ []
put_uint16 little_endian v = v % 256 ∷ v / 2 ^ 8 % 256 ∷ []

unfoldable pub put_uint32 : ByteOrder → ℕ → List ℕ
put_uint32 big_endian v = v / 2 ^ 24 % 256 ∷ v / 2 ^ 16 % 256 ∷ v / 2 ^ 8 % 256 ∷ v % 256 ∷ []
put_uint32 little_endian v = v % 256 ∷ v / 2 ^ 8 % 256 ∷ v / 2 ^ 16 % 256 ∷ v / 2 ^ 24 % 256 ∷ []

unfoldable pub put_uint64 : ByteOrder → ℕ → List ℕ
unfolding put_uint32
put_uint64 big_endian v = put_uint32 big_endian (v / 2 ^ 32) ++ put_uint32 big_endian v
put_uint64 little_endian v = put_uint32 little_endian v ++ put_uint32 little_endian (v / 2 ^ 32)

-- `Uint16`, `Uint32` and `Uint64`: `none` is the panic on a slice that is too short.
unfoldable pub uint16 : ByteOrder → List ℕ → Option ℕ
uint16 big_endian (a ∷ b ∷ r) = some (a * 2 ^ 8 + b)
uint16 little_endian (a ∷ b ∷ r) = some (a + b * 2 ^ 8)
uint16 o _ = none

unfoldable pub uint32 : ByteOrder → List ℕ → Option ℕ
uint32 big_endian (a ∷ b ∷ c ∷ d ∷ r) = some (a * 2 ^ 24 + b * 2 ^ 16 + c * 2 ^ 8 + d)
uint32 little_endian (a ∷ b ∷ c ∷ d ∷ r) = some (a + b * 2 ^ 8 + c * 2 ^ 16 + d * 2 ^ 24)
uint32 o _ = none

unfoldable pub uint64 : ByteOrder → List ℕ → Option ℕ
uint64 big_endian (a ∷ b ∷ c ∷ d ∷ e ∷ f ∷ g ∷ h ∷ r) =
    some
      (a * 2 ^ 56 + b * 2 ^ 48 + c * 2 ^ 40 + d * 2 ^ 32 + e * 2 ^ 24 + f * 2 ^ 16 + g * 2 ^ 8 + h)
uint64 little_endian (a ∷ b ∷ c ∷ d ∷ e ∷ f ∷ g ∷ h ∷ r) =
    some
      (a + b * 2 ^ 8 + c * 2 ^ 16 + d * 2 ^ 24 + e * 2 ^ 32 + f * 2 ^ 40 + g * 2 ^ 48 + h * 2 ^ 56)
uint64 o _ = none

pub uint16-put_uint16 :
    (o : ByteOrder) (v : ℕ) (rest : List ℕ)
    → v < 2 ^ 16
    → uint16 o (put_uint16 o v ++ rest) ≡ some v
unfolding uint16 put_uint16
uint16-put_uint16 big_endian v rest h = ground arith
uint16-put_uint16 little_endian v rest h = ground arith

pub uint32-put_uint32 :
    (o : ByteOrder) (v : ℕ) (rest : List ℕ)
    → v < 2 ^ 32
    → uint32 o (put_uint32 o v ++ rest) ≡ some v
unfolding uint32 put_uint32
uint32-put_uint32 big_endian v rest h = ground arith
uint32-put_uint32 little_endian v rest h = ground arith

pub uint64-put_uint64 :
    (o : ByteOrder) (v : ℕ) (rest : List ℕ)
    → v < 2 ^ 64
    → uint64 o (put_uint64 o v ++ rest) ≡ some v
unfolding uint64 put_uint64
uint64-put_uint64 big_endian v rest h = ground arith
uint64-put_uint64 little_endian v rest h = ground arith

pub length-append_bytes : (xs ys : List ℕ) → length (xs ++ ys) ≡ length xs + length ys
length-append_bytes = length-append

-- For `omega`, on the lengths of byte slices.
pub ruleset lengths = (arith, length-append_bytes)
