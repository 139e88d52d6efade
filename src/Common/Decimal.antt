-- ===== src/Common/Decimal.antt =====
-- `fmt.Sprintf("%d", n)` of a number that fits in 64 bits.
use Prim.Native.Nat.{ℕ, zero, suc, ◌/◌, ◌%◌}
use Prim.Native.String
use Prim.Native.String.{String}
use authpilot.Common.Tests.{eqb, if◌then◌else◌}

abbrev digit : ℕ → String
digit d =
    if eqb d 0
    then "0"
    else if eqb d 1
    then "1"
    else if eqb d 2
    then "2"
    else if eqb d 3
    then "3"
    else if eqb d 4
    then "4"
    else if eqb d 5
    then "5"
    else if eqb d 6
    then "6"
    else if eqb d 7
    then "7"
    else if eqb d 8
    then "8"
    else "9"

-- `n`, if it has at most `places` digits
unfoldable decimal_from : ℕ → ℕ → String
decimal_from zero n = ""
decimal_from (suc places) n =
    let front = decimal_from places (n / 10) in
    if eqb (n / 10) 0 then digit n else String.◌++◌ front (digit (n % 10))

-- a number below `2 ^ 63` has at most 19 digits
unfoldable pub decimal : ℕ → String
unfolding decimal_from
decimal n = decimal_from 19 n
