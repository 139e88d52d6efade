-- ===== src/Common/Text.antt =====
-- `strings.TrimSpace`, `strings.Fields` and `strings.Split`.
use Prim.Native.Char.{Char, code}
use Prim.Native.Nat.{ℕ}
use Prim.Native.String.{String}
use Prim.Native.String
use mathlib.Core.List.{List, [], ◌∷◌}
use mathlib.Core.Bool.{Bool, ◌&&◌, ◌||◌}
use text.Mathlib.Text.{◌==◌}
use authpilot.Common.Tests.{leb, eqb, if◌then◌else◌}

-- `unicode.IsSpace`
abbrev pub is_space : ℕ → Bool
is_space c =
    (leb 9 c && leb c 13)
    || eqb c 32
    || eqb c 0x85
    || eqb c 0xa0
    || eqb c 0x1680
    || (leb 0x2000 c && leb c 0x200a)
    || eqb c 0x2028
    || eqb c 0x2029
    || eqb c 0x202f
    || eqb c 0x205f
    || eqb c 0x3000

unfoldable pub trim_left : String → String
trim_left String.[] = ""
trim_left (String.◌∷◌ c s) =
    let rest = trim_left s in if is_space (code c) then rest else String.◌∷◌ c s

unfoldable pub trim_right : String → String
trim_right String.[] = ""
trim_right (String.◌∷◌ c s) =
    let rest = trim_right s in if is_space (code c) && (rest == "") then "" else String.◌∷◌ c rest

unfoldable pub trim_space : String → String
unfolding trim_left trim_right
trim_space s = trim_right (trim_left s)

-- the word that has been read so far, before the words of the rest
abbrev end_word : String → List String → List String
end_word word rest = if word == "" then rest else word ∷ rest

-- the words of `word` and then `s`
unfoldable fields_from : String → String → List String
fields_from word String.[] = end_word word []
fields_from word (String.◌∷◌ c s) =
    let rest = fields_from "" s in
    let longer = fields_from (String.◌++◌ word (String.◌∷◌ c "")) s in
    if is_space (code c) then end_word word rest else longer

-- `strings.Fields`
unfoldable pub fields : String → List String
unfolding fields_from
fields s = fields_from "" s

abbrev before_next : Char → List String → List String
before_next c [] = String.◌∷◌ c "" ∷ []
before_next c (part ∷ parts) = String.◌∷◌ c part ∷ parts

-- `strings.Split(s, string(separator))`
unfoldable pub split_on : ℕ → String → List String
split_on separator String.[] = "" ∷ []
split_on separator (String.◌∷◌ c s) =
    let rest = split_on separator s in
    if eqb (code c) separator then "" ∷ rest else before_next c rest
