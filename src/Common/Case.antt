-- ===== src/Common/Case.antt =====
-- `strings.ToLower`, `strings.EqualFold` and what else the handlers do with texts. Unicode's tables of
-- cases are kept for ASCII and Latin-1, with the letters elsewhere whose case leads there; other letters
-- are left as they are.
use Prim.Native.Char.{Char, code}
use Prim.Native.Nat.{ℕ, ◌-◌, ◌*◌}
use Prim.Native.String
use Prim.Native.String.{String, slice}
use mathlib.Core.Bool.{Bool, ◌&&◌, not}
use mathlib.Core.Option.{Option, none, some}
use text.Mathlib.Text.{◌==◌}
use authpilot.Common.Tests.{leb, eqb, if◌then◌else◌}

-- one character as a text
abbrev alone : Char → String
alone c = String.◌∷◌ c ""

-- `unicode.ToLower`
unfoldable lower_char : Char → String
lower_char c =
    let n = code c in
    if leb 0x41 n && leb n 0x5a
    then slice "abcdefghijklmnopqrstuvwxyz" (n - 0x41) (n - 0x40)
    else if leb 0xc0 n && leb n 0xde && not (eqb n 0xd7)
    then slice "àáâãäåæçèéêëìíîïðñòóôõö×øùúûüýþ" (2 * (n - 0xc0)) (2 * (n - 0xbf))
    else if eqb n 0x130
    then "i"
    else if eqb n 0x178
    then "ÿ"
    else if eqb n 0x1e9e
    then "ß"
    else if eqb n 0x212a
    then "k"
    else if eqb n 0x212b
    then "å"
    else alone c

-- one name for the characters that `strings.EqualFold` takes as equal: the dotted capital I is equal to
-- itself only, and the long s to the two others
unfoldable fold_char : Char → String
unfolding lower_char
fold_char c =
    if eqb (code c) 0x130 then alone c else if eqb (code c) 0x17f then "s" else lower_char c

unfoldable pub to_lower : String → String
unfolding lower_char
to_lower String.[] = ""
to_lower (String.◌∷◌ c s) = String.◌++◌ (lower_char c) (to_lower s)

unfoldable folded : String → String
unfolding fold_char
folded String.[] = ""
folded (String.◌∷◌ c s) = String.◌++◌ (fold_char c) (folded s)

-- `strings.EqualFold`
unfoldable pub equal_fold : String → String → Bool
unfolding folded
equal_fold s t = folded s == folded t

-- `strings.ReplaceAll(s, " ", "-")`
unfoldable pub dashed : String → String
dashed String.[] = ""
dashed (String.◌∷◌ c s) =
    if eqb (code c) b' ' then String.◌++◌ "-" (dashed s) else String.◌∷◌ c (dashed s)

-- what stands before and after the first such character, if there is one
unfoldable pub cut : ℕ → String → Option (String × String)
cut sep String.[] = none
cut sep (String.◌∷◌ c s) =
    let rest = cut sep s in
    if eqb (code c) sep
    then some ("", s)
    else elim rest [ none ↦ none | some (front, back) ↦ some (String.◌∷◌ c front, back) ]

unfoldable trim_left_of : ℕ → String → String
trim_left_of cutset String.[] = ""
trim_left_of cutset (String.◌∷◌ c s) =
    let rest = trim_left_of cutset s in if eqb (code c) cutset then rest else String.◌∷◌ c s

unfoldable trim_right_of : ℕ → String → String
trim_right_of cutset String.[] = ""
trim_right_of cutset (String.◌∷◌ c s) =
    let rest = trim_right_of cutset s in
    if eqb (code c) cutset && (rest == "") then "" else String.◌∷◌ c rest

-- `strings.Trim(s, cutset)` for a set of one character
unfoldable pub trim : ℕ → String → String
unfolding trim_left_of trim_right_of
trim cutset s = trim_right_of cutset (trim_left_of cutset s)
