-- ===== src/Common/Prefix.antt =====
-- `strings.HasPrefix` and `strings.TrimPrefix`.
use Prim.Native.Char.{Char, code}
use Prim.Native.String.{slice, len}
use Prim.Native.String
use mathlib.Core.Path.{subst}
use mathlib.Core.Bool.{true}
use mathlib.Core.Path.{◌≡◌, refl, sym, ap, ◌∙◌}
use mathlib.Core.Logic.{◌≢◌}
use Prim.Native.String.{String}
use text.Mathlib.Text.{starts_with}
use text.Mathlib.TextEquality.{starts_with_iff}
use text.Mathlib.TextPositions.{starts_with-append, slice-append_right, len-append}
use text.Mathlib.TextLemmas.{nil-append, cons-append, head-eq_of_cons-eq, tail-eq_of_cons-eq}
use authpilot.Common.Tests.{if◌then◌else◌}

-- `strings.HasPrefix(s, prefix)` is the library's `starts_with`
unfoldable pub trim_prefix : String → String → String
trim_prefix s prefix = if starts_with s prefix then slice s (len prefix) (len s) else s

pub trim_prefix-append : (p x : String) → trim_prefix (String.◌++◌ p x) p ≡ x
unfolding trim_prefix
trim_prefix-append p x = rw (starts_with-append p x, len-append) (slice-append_right p x)

pub append-trim_prefix :
    (s p : String) → starts_with s p ≡ true → String.◌++◌ p (trim_prefix s p) ≡ s
append-trim_prefix s p h =
    let (rest, whole) = (starts_with_iff s p).0 h in
    subst (λ z. String.◌++◌ p (trim_prefix z p) ≡ z) whole
      (ap (String.◌++◌ p) (trim_prefix-append p rest))

-- no character of the text is a colon
abbrev pub HasNoColon : String → Type 0
HasNoColon String.[] = Unit
HasNoColon (String.◌∷◌ c s) = (code c ≢ b':') × HasNoColon s

separator-append : (x : String) → String.◌++◌ "::" x ≡ String.◌∷◌ ":" (String.◌++◌ ":" x)
separator-append x = cons-append ":" ":" x

-- A text with no colon does not begin with the separator.
no_separator :
    (c : Char) (s x y : String)
    → code c ≢ b':'
    → String.◌++◌ "" (String.◌++◌ "::" x) ≡ String.◌++◌ (String.◌∷◌ c s) (String.◌++◌ "::" y)
    → ⊥
no_separator c s x y h e =
    let e' : String.◌∷◌ ":" (String.◌++◌ ":" x)
        ≡ String.◌∷◌ c (String.◌++◌ s (String.◌++◌ "::" y)) =
      sym (nil-append _ ∙ separator-append x) ∙ e ∙ cons-append c s _ in
    h (ap code (sym (head-eq_of_cons-eq e')))

-- What stands before the first `::` is determined.
pub before_colon :
    (s t x y : String)
    → HasNoColon s
    → HasNoColon t
    → String.◌++◌ s (String.◌++◌ "::" x) ≡ String.◌++◌ t (String.◌++◌ "::" y)
    → s ≡ t
before_colon String.[] String.[] x y h k e = refl
before_colon String.[] (String.◌∷◌ c t) x y h k e = absurd (no_separator c t x y k.0 e)
before_colon (String.◌∷◌ c s) String.[] x y h k e = absurd (no_separator c s y x h.0 (sym e))
before_colon (String.◌∷◌ c s) (String.◌∷◌ d t) x y h k e =
    let e' : String.◌∷◌ c (String.◌++◌ s (String.◌++◌ "::" x))
        ≡ String.◌∷◌ d (String.◌++◌ t (String.◌++◌ "::" y)) =
      sym (cons-append c s _) ∙ e ∙ cons-append d t _ in
    let rest = before_colon s t x y h.1 k.1 (tail-eq_of_cons-eq e') in
    λ i. String.◌∷◌ (head-eq_of_cons-eq e' i) (rest i)
