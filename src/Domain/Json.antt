-- ===== src/Domain/Json.antt =====
-- `json.Marshal` of the values that `json.Unmarshal` makes: objects in the order of their keys, and the
-- escapes of encoding/json, which hide what HTML reads. A number below 10 ^ 19 is written in digits. Also
-- `fmt.Sprint` of such values.
use Prim.Native.Char.{Char, code}
use Prim.Native.Nat.{ℕ, ◌/◌, ◌%◌, ◌+◌}
use Prim.Native.String
use Prim.Native.String.{String, slice, compare}
use mathlib.Core.Bool.{true, false, ◌||◌}
use text.Mathlib.Text.{is_lt}
use authpilot.Common.{ltb, eqb, if◌then◌else◌}
use authpilot.Common.{[], ◌∷◌}
use authpilot.Common.Decimal.{decimal}
use authpilot.Common.GoMap.{GoMap}
use authpilot.Domain.{Value, Values, Fields, null, bool, num, str, arr, obj, nil, cons, end, field}

abbrev hex_digit : ℕ → String
hex_digit d = slice "0123456789abcdef" d (d + 1)

-- `\u00` and two digits
abbrev escaped_byte : ℕ → String
escaped_byte n = String.◌++◌ "\\u00" (String.◌++◌ (hex_digit (n / 16)) (hex_digit (n % 16)))

unfoldable escaped_char : Char → String
escaped_char c =
    let n = code c in
    if eqb n 0x22
    then "\\\""
    else if eqb n 0x5c
    then "\\\\"
    else if eqb n 8
    then "\\b"
    else if eqb n 12
    then "\\f"
    else if eqb n 10
    then "\\n"
    else if eqb n 13
    then "\\r"
    else if eqb n 9
    then "\\t"
    else if ltb n 32 || eqb n 0x3c || eqb n 0x3e || eqb n 0x26
    then escaped_byte n
    else if eqb n 0x2028
    then "\\u2028"
    else if eqb n 0x2029
    then "\\u2029"
    else String.◌∷◌ c ""

unfoldable pub escaped : String → String
unfolding escaped_char
escaped String.[] = ""
escaped (String.◌∷◌ c s) = String.◌++◌ (escaped_char c) (escaped s)

abbrev quoted : String → String
quoted s = String.◌++◌ "\"" (String.◌++◌ s "\"")

-- the fields in the order of their keys
unfoldable insert_field : String → Value → Fields → Fields
insert_field key v end = field key v end
insert_field key v (field k w fs) =
    let rest = insert_field key v fs in
    if is_lt (compare k key) then field k w rest else field key v (field k w fs)

unfoldable joined : String → Fields → String
unfolding escaped
joined separator end = ""
joined separator (field k (str text) fs) =
    String.◌++◌ separator
      (String.◌++◌ (quoted (escaped k)) (String.◌++◌ ":" (String.◌++◌ text (joined "," fs))))
joined separator (field k _ fs) = joined separator fs

unfoldable mutual
  unfolding escaped decimal insert_field joined

  pub marshal : Value → String
  marshal null = "null"
  marshal (bool true) = "true"
  marshal (bool false) = "false"
  marshal (num n) = decimal n
  marshal (str s) = quoted (escaped s)
  marshal (arr vs) = String.◌++◌ "[" (String.◌++◌ (marshal_values "" vs) "]")
  marshal (obj fs) = String.◌++◌ "{" (String.◌++◌ (joined "" (sorted_texts fs)) "}")

  marshal_values : String → Values → String
  marshal_values separator nil = ""
  marshal_values separator (cons v vs) =
      String.◌++◌ separator (String.◌++◌ (marshal v) (marshal_values "," vs))

  -- the fields with the texts of their values, in the order of their keys
  sorted_texts : Fields → Fields
  sorted_texts end = end
  sorted_texts (field k v fs) = insert_field k (str (marshal v)) (sorted_texts fs)

-- a map as an object, and the fields of an object as a map
unfoldable pub fields_of : GoMap Value → Fields
fields_of [] = end
fields_of ((k, v) ∷ m) = field k v (fields_of m)

unfoldable pub map_of : Fields → GoMap Value
map_of end = []
map_of (field k v fs) = (k, v) ∷ map_of fs

-- `fmt.Sprint` of a value
unfoldable spaced : Fields → String
spaced end = ""
spaced (field k (str text) fs) =
    String.◌++◌ " " (String.◌++◌ k (String.◌++◌ ":" (String.◌++◌ text (spaced fs))))
spaced (field k _ fs) = spaced fs

-- without the separator before the first
abbrev without_space : String → String
without_space s = slice s 1 (String.len s)

unfoldable mutual
  unfolding decimal insert_field spaced

  pub sprint : Value → String
  sprint null = "<nil>"
  sprint (bool true) = "true"
  sprint (bool false) = "false"
  sprint (num n) = decimal n
  sprint (str s) = s
  sprint (arr vs) = String.◌++◌ "[" (String.◌++◌ (without_space (sprint_values vs)) "]")
  sprint (obj fs) = String.◌++◌ "map[" (String.◌++◌ (without_space (spaced (sprint_texts fs))) "]")

  sprint_values : Values → String
  sprint_values nil = ""
  sprint_values (cons v vs) = String.◌++◌ " " (String.◌++◌ (sprint v) (sprint_values vs))

  -- the fields with the texts of their values, in the order of their keys
  sprint_texts : Fields → Fields
  sprint_texts end = end
  sprint_texts (field k v fs) = insert_field k (str (sprint v)) (sprint_texts fs)
