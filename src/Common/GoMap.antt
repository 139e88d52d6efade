-- ===== src/Common/GoMap.antt =====
-- Go's `map[string]V` as an association list. The order of the list stands for the order in which
-- `range` happens to visit the entries: what is proved for every list is proved for every order.
use Prim.Native.String.{String}
use mathlib.Core.Path.{◌≡◌, refl}
use mathlib.Core.Bool.{Bool}
use mathlib.Core.Option.{Option, none, some}
use mathlib.Core.List.{List, [], ◌∷◌}
use native.Mathlib.Omega.{arith}
use text.Mathlib.Text.{◌==◌}
use text.Mathlib.TextEquality.{eq_iff}
use text.Mathlib.TextPositions.{eq_refl}
use authpilot.Common.Tests.{if◌then◌else◌}
use authpilot.Common.Lists.{All, Has}

abbrev pub GoMap {ℓ} : Type ℓ → Type ℓ
GoMap V = List (String × V)

module _ {ℓ} {V : Type ℓ} where
  -- `delete(m, k)`
  unfoldable pub delete : String → GoMap V → GoMap V
  delete key [] = []
  delete key ((at, held) ∷ rest) =
      let kept = delete key rest in if at == key then kept else (at, held) ∷ kept

  -- `m[k] = v`, in place where the key is there
  unfoldable pub insert : String → V → GoMap V → GoMap V
  insert key new [] = (key, new) ∷ []
  insert key new ((at, held) ∷ rest) =
      if at == key then (key, new) ∷ rest else (at, held) ∷ insert key new rest

  -- `v, ok := m[k]`
  unfoldable pub lookup : String → GoMap V → Option V
  lookup key [] = none
  lookup key ((at, held) ∷ rest) = if at == key then some held else lookup key rest

  -- `for k, v := range m { if drop(v) { delete(m, k) } }`
  unfoldable pub drop_if : (V → Bool) → GoMap V → GoMap V
  drop_if drop [] = []
  drop_if drop ((j, v) ∷ m) = let rest = drop_if drop m in if drop v then rest else (j, v) ∷ rest

  -- the values, in the order of the visit
  unfoldable pub values : GoMap V → List V
  values [] = []
  values ((j, v) ∷ m) = v ∷ values m

  pub lookup-delete :
      (gone key : String) (all : GoMap V)
      → lookup key (delete gone all) ≡ (if gone == key then none else lookup key all)
  unfolding lookup delete
  lookup-delete gone key [] = ground arith
  lookup-delete gone key ((at, held) ∷ rest) =
      ground (arith, lookup-delete gone key rest, eq_iff gone key, eq_iff at key, eq_iff at gone)

  -- What is read back after a write.
  pub lookup-insert :
      (written key : String) (new : V) (all : GoMap V)
      → lookup key (insert written new all) ≡ (if written == key then some new else lookup key all)
  unfolding lookup insert
  lookup-insert written key new [] = refl
  lookup-insert written key new ((at, held) ∷ rest) = ground (
    arith,
    lookup-insert written key new rest,
    eq_iff at key,
    eq_iff written key,
    eq_iff at written,
  )

  -- A map has each key once.
  abbrev pub HasUniqueKeys : GoMap V → Type ℓ
  HasUniqueKeys [] = Unit
  HasUniqueKeys ((k, v) ∷ m) = (lookup k m ≡ none) × HasUniqueKeys m

  pub insert-HasUniqueKeys :
      (k : String) (v : V) (m : GoMap V) → HasUniqueKeys m → HasUniqueKeys (insert k v m)
  unfolding insert lookup
  insert-HasUniqueKeys k v [] h = (refl, tt)
  insert-HasUniqueKeys k v ((i, w) ∷ m) h =
      ground (arith, eq_iff i k, eq_iff k i, lookup-insert k i v m, insert-HasUniqueKeys k v m h.1)

  pub delete-HasUniqueKeys :
      (k : String) (m : GoMap V) → HasUniqueKeys m → HasUniqueKeys (delete k m)
  unfolding delete
  delete-HasUniqueKeys k [] h = tt
  delete-HasUniqueKeys k ((i, w) ∷ m) h =
      ground (arith, lookup-delete k i m, delete-HasUniqueKeys k m h.1)

  -- What `drop_if` keeps is what does not pass the test.
  abbrev pub unless_dropped : (V → Bool) → Option V → Option V
  unless_dropped drop none = none
  unless_dropped drop (some v) = if drop v then none else some v

  pub lookup-drop_if :
      (drop : V → Bool) (k : String) (m : GoMap V)
      → HasUniqueKeys m
      → lookup k (drop_if drop m) ≡ unless_dropped drop (lookup k m)
  unfolding lookup drop_if
  lookup-drop_if drop k [] h = refl
  lookup-drop_if drop k ((i, w) ∷ m) h = ground (arith, eq_iff i k, lookup-drop_if drop k m h.1)

  pub drop_if-HasUniqueKeys :
      (drop : V → Bool) (m : GoMap V) → HasUniqueKeys m → HasUniqueKeys (drop_if drop m)
  unfolding drop_if
  drop_if-HasUniqueKeys drop [] h = tt
  drop_if-HasUniqueKeys drop ((i, w) ∷ m) h =
      ground (arith, lookup-drop_if drop i m h.1, drop_if-HasUniqueKeys drop m h.1)

-- A statement about every entry.
module _ {ℓ κ} {V : Type ℓ} (P : String → V → Type κ) where
  abbrev pub Entries : GoMap V → Type κ
  Entries [] = Unit
  Entries ((k, v) ∷ m) = P k v × Entries m

  pub Entries-lookup : (k : String) (v : V) (m : GoMap V) → Entries m → lookup k m ≡ some v → P k v
  unfolding lookup
  Entries-lookup k v [] h e = cc
  Entries-lookup k v ((i, w) ∷ m) h e = ground (arith, eq_iff i k, Entries-lookup k v m h.1)

  pub insert-Entries :
      (k : String) (v : V) (m : GoMap V) → Entries m → P k v → Entries (insert k v m)
  unfolding insert
  insert-Entries k v [] h p = (p, tt)
  insert-Entries k v ((i, w) ∷ m) h p = ground (arith, insert-Entries k v m h.1 p)

  pub delete-Entries : (k : String) (m : GoMap V) → Entries m → Entries (delete k m)
  unfolding delete
  delete-Entries k [] h = tt
  delete-Entries k ((i, w) ∷ m) h = ground (arith, delete-Entries k m h.1)

  pub drop_if-Entries : (drop : V → Bool) (m : GoMap V) → Entries m → Entries (drop_if drop m)
  unfolding drop_if
  drop_if-Entries drop [] h = tt
  drop_if-Entries drop ((i, w) ∷ m) h = ground (arith, drop_if-Entries drop m h.1)

  -- the same for the values in a list
  pub All-values :
      (m : GoMap V) (Q : V → Type κ)
      → ((k : String) (v : V) → P k v → Q v)
      → Entries m
      → All Q (values m)
  unfolding values
  All-values [] Q f h = tt
  All-values ((k, v) ∷ m) Q f h = (f k v h.0, All-values m Q f h.1)

module _ {V : Type 0} where
  pub Has-values : (k : String) (v : V) (m : GoMap V) → lookup k m ≡ some v → Has v (values m)
  unfolding lookup values
  Has-values k v [] e = cc
  Has-values k v ((i, w) ∷ m) e = ground (arith, Has-values k v m)

  -- In a map with unique keys every entry is what its key finds.
  weaken :
      (i : String) (w : V) (m n : GoMap V)
      → lookup i m ≡ none
      → Entries (λ k v. lookup k n ≡ some v) m
      → Entries (λ k v. lookup k ((i, w) ∷ n) ≡ some v) m
  unfolding lookup
  weaken i w [] n e h = tt
  weaken i w ((j, u) ∷ m) n e h = ground (arith, eq_iff i j, eq_iff j i, weaken i w m n)

  pub Entries-self : (m : GoMap V) → HasUniqueKeys m → Entries (λ k v. lookup k m ≡ some v) m
  unfolding lookup
  Entries-self [] h = tt
  Entries-self ((i, w) ∷ m) h = (rw (eq_refl i) refl, weaken i w m m h.0 (Entries-self m h.1))

module _ {ℓ κ} {V : Type ℓ} (P R : String → V → Type κ) where
  pub Entries-and : (m : GoMap V) → Entries P m → Entries R m → Entries (λ k v. P k v × R k v) m
  Entries-and [] h k = tt
  Entries-and ((i, w) ∷ m) h k = ((h.0, k.0), Entries-and m h.1 k.1)

module _ {ℓ κ} {V : Type ℓ} (P R : String → V → Type κ)
    (f : (k : String) (v : V) → P k v → R k v) where
  pub Entries-weaken : (m : GoMap V) → Entries P m → Entries R m
  Entries-weaken [] h = tt
  Entries-weaken ((i, w) ∷ m) h = (f i w h.0, Entries-weaken m h.1)
