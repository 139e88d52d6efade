-- ===== src/Opa/Hidden.antt =====
-- Redaction by several paths: a later one uncovers nothing, so that no path of the list is readable.
use mathlib.Core.Path.{subst}
use authpilot.Common.{
  String, ◌≡◌, refl, ap, ◌∙◌, Bool, true, false, Option, none, some, List, [], ◌∷◌, ◌==◌,
  Bool-cases, Option-cases, inl, inr, Has,
}
use authpilot.Common.Case.{cut}
use authpilot.Domain.{Value, Fields, null, bool, num, str, arr, obj}
use authpilot.Opa.{DecisionLogConfig}
use authpilot.Opa.Log.{
  redact_path, redact_nested, redact_all, DecisionEntry, written, logged_input,
  effective_redact_fields,
}
use authpilot.Opa.Redaction.{
  value_at, split_path, hidden, map_value, below_at, value_at-field, redacted_leaf, redacted_below,
  value_at-redact_path, get_field,
}

-- there is no value, or the mark
abbrev pub IsHidden : Option Value → Type 0
IsHidden o = hidden o ≡ o

mark-IsHidden : (keys : List String) → IsHidden (value_at (str "[REDACTED]") keys)
unfolding value_at
mark-IsHidden [] = refl
mark-IsHidden (k ∷ ks) = refl

keep_nested :
    (keys : List String) (path : String)
    → ((fs : Fields)
        → IsHidden (value_at (obj fs) keys)
        → IsHidden (value_at (obj (redact_path fs path)) keys))
    → (v : Value) → IsHidden (value_at v keys)
    → IsHidden (value_at (redact_nested v path) keys)
unfolding redact_path
keep_nested keys path h (obj fs) e = h fs e
keep_nested keys path h null e = e
keep_nested keys path h (bool b) e = e
keep_nested keys path h (num n) e = e
keep_nested keys path h (str s) e = e
keep_nested keys path h (arr vs) e = e

below_leaf : (o : Option Value) (ks : List String) → IsHidden (below_at (hidden o) ks)
below_leaf none ks = refl
below_leaf (some v) ks = mark-IsHidden ks

below_map :
    (o : Option Value) (ks : List String) (path : String)
    → ((v : Value) → IsHidden (value_at v ks) → IsHidden (value_at (redact_nested v path) ks))
    → IsHidden (below_at o ks)
    → IsHidden (below_at (map_value (λ v. redact_nested v path) o) ks)
below_map none ks path h e = refl
below_map (some v) ks path h e = h v e

redact_path-IsHidden :
    (keys : List String) (path : String) (fs : Fields)
    → IsHidden (value_at (obj fs) keys)
    → IsHidden (value_at (obj (redact_path fs path)) keys)
unfolding value_at
redact_path-IsHidden [] path fs e = cc
redact_path-IsHidden (k ∷ ks) path fs e =
    let before : IsHidden (below_at (get_field fs k) ks) = rw⁻¹ (value_at-field fs k ks) e in
    rw (value_at-field (redact_path fs path) k ks) (elim (Option-cases (cut b'.' path)) [
      | inr leaf ↦ rw (redacted_leaf fs path k leaf) (elim (Bool-cases (path == k)) [
        | inl hit ↦ rw hit (below_leaf (get_field fs k) ks)
        | inr miss ↦ rw miss before
      ])
      | inl ((key, below), nested) ↦
          rw (redacted_below fs path key below k nested) (elim (Bool-cases (key == k)) [
            | inl hit ↦ rw hit (
                below_map (get_field fs k) ks below
                  (keep_nested ks below (redact_path-IsHidden ks below)) before)
            | inr miss ↦ rw miss before
          ])
    ])

redact_all-IsHidden :
    (keys paths : List String) (fs : Fields)
    → IsHidden (value_at (obj fs) keys)
    → IsHidden (value_at (obj (redact_all fs paths)) keys)
unfolding redact_all
redact_all-IsHidden keys [] fs e = e
redact_all-IsHidden keys (path ∷ paths) fs e =
    redact_all-IsHidden keys paths (redact_path fs path) (redact_path-IsHidden keys path fs e)

hidden_twice : (o : Option Value) → IsHidden (hidden o)
hidden_twice none = refl
hidden_twice (some v) = refl

redact_all_lem :
    (paths : List String) (fs : Fields) (path : String)
    → Has path paths
    → IsHidden (value_at (obj (redact_all fs paths)) (split_path path))
unfolding redact_all
redact_all_lem [] fs path h = elim h [ ]
redact_all_lem (p ∷ paths) fs path (inl same) =
    redact_all-IsHidden (split_path path) paths (redact_path fs p) (
      rw same (
        rw (value_at-redact_path (split_path path) path refl fs)
          (hidden_twice (value_at (obj fs) (split_path path)))))
redact_all_lem (p ∷ paths) fs path (inr later) = redact_all_lem paths (redact_path fs p) path later

abbrev fields_or : Fields → Option Fields → Fields
fields_or default none = default
fields_or default (some fs) = fs

logged_input_lem :
    (include : Bool) (paths : List String) (o : Option Fields) (input : Fields) (path : String)
    → logged_input include paths o ≡ some input
    → Has path paths
    → IsHidden (value_at (obj input) (split_path path))
logged_input_lem false paths o input path e h = cc
logged_input_lem true paths none input path e h = cc
logged_input_lem true paths (some fs) input path e h =
    let is : redact_all fs paths ≡ input = ap (fields_or input) e in
    subst (λ z. IsHidden (value_at (obj z) (split_path path))) is (redact_all_lem paths fs path h)

abbrev input_of : Option DecisionEntry → Option Fields
input_of none = none
input_of (some entry) = entry.input

-- In the entry that is written, no path of the server's list nor of those that come with the entry leads to
-- anything but the mark, whatever paths are redacted after it.
pub written-IsHidden :
    (cfg : DecisionLogConfig) (scrub : String → String) (entry out : DecisionEntry) (input : Fields)
    (path : String)
    → written cfg scrub entry ≡ some out
    → out.input ≡ some input
    → Has path (effective_redact_fields cfg entry.tenant_overrides)
    → IsHidden (value_at (obj input) (split_path path))
unfolding written
written-IsHidden cfg scrub entry out input path e i h = elim (Bool-cases cfg.enabled) [
  | inr off ↦ cc (rw off at e)
  | inl on ↦
      let made = ap input_of (rw on at e) in
      logged_input_lem cfg.include_input (effective_redact_fields cfg entry.tenant_overrides)
        entry.input input path (made ∙ i) h
]
