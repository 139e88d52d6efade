-- ===== src/Opa/Redaction.antt =====
-- What the redaction of a logged input hides, and what it leaves.
use Prim.Native.Char.{Char, code}
use mathlib.Core.Path.{subst}
use authpilot.Common.{
  String, ◌≡◌, ◌≢◌, refl, sym, ap, ◌∙◌, Option, none, some, List, [], ◌∷◌, ◌==◌, if◌then◌else◌, eqb,
  arith, Option-cases, inl, inr, eq_iff, eq_refl,
}
use authpilot.Common.Case.{cut}
use authpilot.Domain.{Value, Fields, null, bool, num, str, arr, obj, end, field}
use authpilot.Opa.Log.{redact_path, redact_nested}

-- `v, ok := m[k]`
unfoldable pub get_field : Fields → String → Option Value
get_field end key = none
get_field (field k v fs) key = let rest = get_field fs key in if k == key then some v else rest

-- the value at the keys of a path
unfoldable pub value_at : Value → List String → Option Value
unfolding get_field
value_at v [] = some v
value_at (obj fs) (key ∷ path) = elim (get_field fs key) [ none ↦ none | some v ↦ value_at v path ]
value_at _ (key ∷ path) = none

-- the keys between the dots
abbrev put_first : Char → List String → List String
put_first c [] = String.◌∷◌ c "" ∷ []
put_first c (key ∷ keys) = String.◌∷◌ c key ∷ keys

unfoldable pub split_path : String → List String
split_path String.[] = "" ∷ []
split_path (String.◌∷◌ c s) =
    let rest = split_path s in if eqb (code c) b'.' then "" ∷ rest else put_first c rest

-- how a path without a dot is split, and one with a dot
abbrev Splits : String → Option (String × String) → Type 0
Splits path none = split_path path ≡ (path ∷ [])
Splits path (some (key, below)) = split_path path ≡ (key ∷ split_path below)

split_path-Splits : (path : String) → Splits path (cut b'.' path)
unfolding split_path cut
split_path-Splits String.[] = refl
split_path-Splits (String.◌∷◌ c s) = ground (arith, split_path-Splits s)

abbrev pub hidden : Option Value → Option Value
hidden none = none
hidden (some v) = some (str "[REDACTED]")

abbrev pub map_value : (Value → Value) → Option Value → Option Value
map_value f none = none
map_value f (some v) = some (f v)

pub redacted_leaf :
    (fs : Fields) (path k : String)
    → cut b'.' path ≡ none
    → get_field (redact_path fs path) k
      ≡ (if path == k then hidden (get_field fs k) else get_field fs k)
unfolding get_field redact_path
redacted_leaf end path k e = ground arith
redacted_leaf (field j v fs) path k e =
    rw (e, redact_path)
      (ground (arith, redacted_leaf fs path k e, eq_iff j path, eq_iff j k, eq_iff path k))

pub redacted_below :
    (fs : Fields) (path key below k : String)
    → cut b'.' path ≡ some (key, below)
    → get_field (redact_path fs path) k ≡ (
        if key == k
        then map_value (λ v. redact_nested v below) (get_field fs k)
        else get_field fs k)
unfolding get_field redact_path
redacted_below end path key below k e = ground arith
redacted_below (field j v fs) path key below k e =
    rw (e, redact_path)
      (ground (arith, redacted_below fs path key below k e, eq_iff j key, eq_iff j k, eq_iff key k))

abbrev tail : List String → List String
tail [] = []
tail (k ∷ ks) = ks

put_first-cons : (c : Char) (ks : List String) → put_first c ks ≢ []
put_first-cons c [] e = cc
put_first-cons c (k ∷ ks) e = cc

split_path-cons : (path : String) → split_path path ≢ []
unfolding split_path
split_path-cons String.[] e = cc
split_path-cons (String.◌∷◌ c s) e = ground (arith, put_first-cons c (split_path s))

-- what holds of the maps holds of the values
hidden_nested :
    (keys : List String) (path : String)
    → keys ≢ []
    → ((fs : Fields) → value_at (obj (redact_path fs path)) keys ≡ hidden (value_at (obj fs) keys))
    → (v : Value) → value_at (redact_nested v path) keys ≡ hidden (value_at v keys)
unfolding redact_path value_at
hidden_nested [] path full h v = absurd (full refl)
hidden_nested (k ∷ ks) path full h (obj fs) = h fs
hidden_nested (k ∷ ks) path full h null = refl
hidden_nested (k ∷ ks) path full h (bool b) = refl
hidden_nested (k ∷ ks) path full h (num n) = refl
hidden_nested (k ∷ ks) path full h (str s) = refl
hidden_nested (k ∷ ks) path full h (arr vs) = refl

abbrev pub below_at : Option Value → List String → Option Value
below_at none keys = none
below_at (some v) keys = value_at v keys

pub value_at-field :
    (fs : Fields) (k : String) (ks : List String)
    → value_at (obj fs) (k ∷ ks) ≡ below_at (get_field fs k) ks
unfolding value_at
value_at-field fs k ks = elim (Option-cases (get_field fs k)) [
  | inr e ↦ rw (e, value_at) refl
  | inl (v, e) ↦ rw (e, value_at) refl
]

below_hidden : (o : Option Value) → below_at (hidden o) [] ≡ hidden (below_at o [])
unfolding value_at
below_hidden none = refl
below_hidden (some v) = refl

below_nested :
    (keys : List String) (path : String) (o : Option Value)
    → ((v : Value) → value_at (redact_nested v path) keys ≡ hidden (value_at v keys))
    → below_at (map_value (λ v. redact_nested v path) o) keys ≡ hidden (below_at o keys)
below_nested keys path none h = refl
below_nested keys path (some v) h = h v

leaf_at :
    (path : String) (fs : Fields)
    → cut b'.' path ≡ none
    → value_at (obj (redact_path fs path)) (path ∷ []) ≡ hidden (value_at (obj fs) (path ∷ []))
leaf_at path fs leaf =
    value_at-field (redact_path fs path) path []
    ∙ ap (λ o. below_at o []) (redacted_leaf fs path path leaf ∙ rw (eq_refl path) refl)
    ∙ below_hidden (get_field fs path)
    ∙ sym (ap hidden (value_at-field fs path []))

nested_at :
    (path key below : String) (ks : List String) (fs : Fields)
    → cut b'.' path ≡ some (key, below)
    → ((v : Value) → value_at (redact_nested v below) ks ≡ hidden (value_at v ks))
    → value_at (obj (redact_path fs path)) (key ∷ ks) ≡ hidden (value_at (obj fs) (key ∷ ks))
nested_at path key below ks fs nested h =
    value_at-field (redact_path fs path) key ks
    ∙ ap (λ o. below_at o ks) (redacted_below fs path key below key nested ∙ rw (eq_refl key) refl)
    ∙ below_nested ks below (get_field fs key) h
    ∙ sym (ap hidden (value_at-field fs key ks))

splits : (path : String) (o : Option (String × String)) → cut b'.' path ≡ o → Splits path o
splits path o e = subst (Splits path) e (split_path-Splits path)

abbrev head : List String → String
head [] = ""
head (k ∷ ks) = k

-- The value at the keys of a redacted path is the mark where there was a value, and nothing is added where
-- there was none.
pub value_at-redact_path :
    (keys : List String) (path : String)
    → split_path path ≡ keys
    → (fs : Fields) → value_at (obj (redact_path fs path)) keys ≡ hidden (value_at (obj fs) keys)
value_at-redact_path [] path e fs = absurd (split_path-cons path e)
value_at-redact_path (k ∷ ks) path e fs = elim (Option-cases (cut b'.' path)) [
  | inr leaf ↦
      subst (λ z. value_at (obj (redact_path fs path)) z ≡ hidden (value_at (obj fs) z))
        (sym (splits path none leaf) ∙ e) (leaf_at path fs leaf)
  | inl ((key, below), nested) ↦
      let parts : (key ∷ split_path below) ≡ (k ∷ ks) =
        sym (splits path (some (key, below)) nested) ∙ e in
      let rest : split_path below ≡ ks = ap tail parts in
      let full : ks ≢ [] = λ empty. split_path-cons below (rest ∙ empty) in
      subst
        (λ z. value_at (obj (redact_path fs path)) (z ∷ ks) ≡ hidden (value_at (obj fs) (z ∷ ks)))
        (ap head parts)
        (nested_at path key below ks fs nested
          (hidden_nested ks below full (value_at-redact_path ks below rest)))
]
