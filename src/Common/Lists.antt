-- ===== src/Common/Lists.antt =====
-- Lists over the native numbers, and predicates by recursion, which the tactics read.
use Prim.Native.Nat.{ℕ, zero, suc}
use Prim.Native.String.{String, compare}
use mathlib.Core.Path.{◌≡◌, refl}
use mathlib.Core.Logic.{◌⊎◌, inl, inr}
use mathlib.Core.Bool.{Bool, false, ◌||◌}
use mathlib.Core.Option.{Option, none, some}
use mathlib.Core.List.{List, [], ◌∷◌, ◌++◌}
use native.Mathlib.Omega.{arith}
use text.Mathlib.Text.{◌==◌, is_lt}
use authpilot.Common.Tests.{if◌then◌else◌}

module _ {ℓ} {A : Type ℓ} where
  abbrev pub length : List A → ℕ
  length [] = 0
  length (x ∷ xs) = suc (length xs)

  abbrev pub get_elem? : List A → ℕ → Option A
  get_elem? [] i = none
  get_elem? (x ∷ xs) zero = some x
  get_elem? (x ∷ xs) (suc i) = get_elem? xs i

  -- A write out of bounds changes nothing.
  abbrev pub set : List A → ℕ → A → List A
  set [] i v = []
  set (x ∷ xs) zero v = v ∷ xs
  set (x ∷ xs) (suc i) v = x ∷ set xs i v

  abbrev pub replicate : ℕ → A → List A
  replicate zero a = []
  replicate (suc n) a = a ∷ replicate n a

  -- `any test xs`: the loop that returns on the first hit
  abbrev pub any : (A → Bool) → List A → Bool
  any test [] = false
  any test (x ∷ xs) = test x || any test xs

  -- the loop that keeps what passes the test
  abbrev pub keep : (A → Bool) → List A → List A
  keep test [] = []
  keep test (x ∷ xs) = let rest = keep test xs in if test x then x ∷ rest else rest

  -- how many pass the test
  abbrev pub count_if : (A → Bool) → List A → ℕ
  count_if test [] = 0
  count_if test (x ∷ xs) = let rest = count_if test xs in if test x then suc rest else rest

module _ {ℓ κ} {A : Type ℓ} (P : A → Type κ) where
  abbrev pub All : List A → Type κ
  All [] = Unit
  All (x ∷ xs) = P x × All xs

  -- every statement about the members of a part holds
  pub keep-All : (test : A → Bool) (xs : List A) → All xs → All (keep test xs)
  keep-All test [] h = tt
  keep-All test (x ∷ xs) h = ground (arith, keep-All test xs h.1)

  pub All-append : (xs ys : List A) → All xs → All ys → All (xs ++ ys)
  All-append [] ys h k = k
  All-append (x ∷ xs) ys h k = (h.0, All-append xs ys h.1 k)

-- membership, with its place
module _ {A : Type 0} where
  abbrev pub Has : A → List A → Type 0
  Has a [] = ⊥
  Has a (x ∷ xs) = (x ≡ a) ⊎ Has a xs

-- `sort.Slice(out, func(i, j int) bool { return out[i].ID < out[j].ID })`, by insertion; texts are
-- compared by their bytes
module _ {A : Type 0} (key : A → String) where
  unfoldable pub insert_sorted : A → List A → List A
  insert_sorted a [] = a ∷ []
  insert_sorted a (x ∷ xs) =
      if is_lt (compare (key x) (key a)) then x ∷ insert_sorted a xs else a ∷ x ∷ xs

  unfoldable pub sort_by : List A → List A
  unfolding insert_sorted
  sort_by [] = []
  sort_by (x ∷ xs) = insert_sorted x (sort_by xs)

  Has-insert_sorted_here : (a : A) (xs : List A) → Has a (insert_sorted a xs)
  unfolding insert_sorted
  Has-insert_sorted_here a [] = inl refl
  Has-insert_sorted_here a (x ∷ xs) = ground (arith, Has-insert_sorted_here a xs)

  Has-insert_sorted : (a b : A) (xs : List A) → Has b xs → Has b (insert_sorted a xs)
  unfolding insert_sorted
  Has-insert_sorted a b [] h = elim h [ ]
  Has-insert_sorted a b (x ∷ xs) h = ground (arith, Has-insert_sorted a b xs)

  -- sorting loses nothing
  pub Has-sort_by : (a : A) (xs : List A) → Has a xs → Has a (sort_by xs)
  unfolding sort_by
  Has-sort_by a [] h = elim h [ ]
  Has-sort_by a (x ∷ xs) (inl e) = rw (← e) (Has-insert_sorted_here x (sort_by xs))
  Has-sort_by a (x ∷ xs) (inr h) = Has-insert_sorted x a (sort_by xs) (Has-sort_by a xs h)

module _ {κ} {A : Type 0} (key : A → String) (P : A → Type κ) where
  insert_sorted-All : (a : A) (xs : List A) → P a → All P xs → All P (insert_sorted key a xs)
  unfolding insert_sorted
  insert_sorted-All a [] p h = (p, tt)
  insert_sorted-All a (x ∷ xs) p h = ground (arith, insert_sorted-All a xs p h.1)

  -- and adds nothing
  pub sort_by-All : (xs : List A) → All P xs → All P (sort_by key xs)
  unfolding sort_by
  sort_by-All [] h = tt
  sort_by-All (x ∷ xs) h = insert_sorted-All x (sort_by key xs) h.0 (sort_by-All xs h.1)

-- membership of a text, as a test
abbrev pub contains : List String → String → Bool
contains [] s = false
contains (x ∷ xs) s = (x == s) || contains xs s
