-- ===== src/Prelude/Decimal.antt =====
-- Numbers in decimal, as strconv reads them and fmt writes them.
use Prim.Native.Nat.{ℕ, zero, suc, ◌+◌, ◌-◌, ◌*◌, ◌/◌, ◌%◌, ◌^◌}
use mathlib.Core.Bool.{Bool, true, false, ◌&&◌}
use mathlib.Core.Option
use mathlib.Core.Option.{Option, none, some}
use mathlib.Core.List.{List, [], ◌∷◌}
use clove.Prelude.Logic.{ltb, leb, ◌==◌, if◌then◌else◌}
use clove.Prelude.Int.{ℤ, pos, negsuc}

-- `strconv.ParseInt(s, 10, 64)`: the digits, the sign and the range.
unfoldable pub parse_digits : ℕ → List ℕ → Option ℕ
parse_digits acc [] = some acc
parse_digits acc (c ∷ s) =
    let more = parse_digits (acc * 10 + (c - 48)) s in if leb 48 c && leb c 57 then more else none

abbrev in_range : Bool → ℕ → Option ℤ
in_range false n = if ltb n (2 ^ 63) then some (pos n) else none
in_range true n =
    if n == 0 then some (pos 0) else if leb n (2 ^ 63) then some (negsuc (n - 1)) else none

unfoldable pub parse_natural : Bool → List ℕ → Option ℤ
unfolding parse_digits
parse_natural minus [] = none
parse_natural minus (c ∷ s) = Option.bind (parse_digits 0 (c ∷ s)) (in_range minus)

unfoldable pub parse_int : List ℕ → Option ℤ
unfolding parse_natural
parse_int [] = none
parse_int (c ∷ s) =
    if c == b'-'
    then parse_natural true s
    else if c == b'+'
    then parse_natural false s
    else parse_natural false (c ∷ s)

-- `%d` of a natural number.
unfoldable pub show_digits : ℕ → ℕ → List ℕ → List ℕ
show_digits zero n s = s
show_digits (suc fuel) n s =
    let more = show_digits fuel (n / 10) ((n % 10 + b'0') ∷ s) in
    if ltb n 10 then (n + b'0') ∷ s else more

unfoldable pub show_nat : ℕ → List ℕ
unfolding show_digits
show_nat n = show_digits (suc n) n []
