-- ===== src/Store/Memory/RingList.antt =====
-- The ring buffer against a bounded list: `List` gives the latest events, the oldest first.
use native.Mathlib.Nat.{
  add-zero, zero-add, suc-add, add-suc, mod-lt, mod-eq_of_lt, mod-add-mod, mod-eq-sub-mod,
}
use mathlib.Core.Path.{ap₂}
use authpilot.Common.{
  ℕ, zero, suc, ◌+◌, ◌-◌, ◌%◌, ◌≤◌, ◌<◌, ◌≡◌, ◌≢◌, refl, sym, ap, ◌∙◌, Option, none, some, List, [],
  ◌∷◌, ◌++◌, arith, Bool-cases, inl, inr, ltb, length, get_elem?, set, replicate,
}
use authpilot.Store.Memory.Ring.{Ring, make, append, start_of, slot, put_front, read_from}

-- `(head + i) % cap` goes round at most once
wrap_low : (x c : ℕ) → x < c → x % c ≡ x
wrap_low x c h = mod-eq_of_lt h

wrap_high : (x c : ℕ) → c ≤ x → x < c + c → x % c ≡ x - c
wrap_high x c h k = mod-eq-sub-mod h ∙ mod-eq_of_lt (omega arith)

ruleset wraps = (arith, wrap_low, wrap_high)

-- no slot but the first is the first one
wrap-ne : (h i c : ℕ) → h < c → 0 < i → i < c → (h + i) % c ≢ h
wrap-ne h i c p q r = elim (Bool-cases (ltb (h + i) c)) [
  | inl low ↦ rw (wrap_low (h + i) c (ground arith)) (omega arith)
  | inr high ↦ rw (wrap_high (h + i) c (ground arith) (omega arith)) (λ e. ground arith)
]

module _ {A : Type 0} where
  -- The write slot is in the array, and before the array is full it is the first free one.
  pub record IsRing (s : Ring A) : Type 0 where
    pub has_slots : 0 < s.capacity
    pub filled : length s.buf ≡ s.capacity
    pub head_in : s.head < s.capacity
    pub size_in : s.size ≤ s.capacity
    pub head_next : s.size < s.capacity → s.head ≡ s.size

  length-replicate : (n : ℕ) (a : A) → length (replicate n a) ≡ n
  length-replicate zero a = refl
  length-replicate (suc n) a = ap suc (length-replicate n a)

  length-set : (xs : List A) (i : ℕ) (a : A) → length (set xs i a) ≡ length xs
  length-set [] i a = refl
  length-set (x ∷ xs) zero a = refl
  length-set (x ∷ xs) (suc i) a = ap suc (length-set xs i a)

  get_elem?-set_same :
      (xs : List A) (i : ℕ) (a : A) → i < length xs → get_elem? (set xs i a) i ≡ some a
  get_elem?-set_same [] i a h = absurd (omega arith)
  get_elem?-set_same (x ∷ xs) zero a h = refl
  get_elem?-set_same (x ∷ xs) (suc i) a h = get_elem?-set_same xs i a (omega arith)

  get_elem?-set_other :
      (xs : List A) (i j : ℕ) (a : A) → i ≢ j → get_elem? (set xs i a) j ≡ get_elem? xs j
  get_elem?-set_other [] i j a h = refl
  get_elem?-set_other (x ∷ xs) zero zero a h = absurd (h refl)
  get_elem?-set_other (x ∷ xs) zero (suc j) a h = refl
  get_elem?-set_other (x ∷ xs) (suc i) zero a h = refl
  get_elem?-set_other (x ∷ xs) (suc i) (suc j) a h =
      get_elem?-set_other xs i j a (λ e. h (ap suc e))

  get_elem?-in : (xs : List A) (i : ℕ) → i < length xs → (a : A) × (get_elem? xs i ≡ some a)
  get_elem?-in [] i h = absurd (omega arith)
  get_elem?-in (x ∷ xs) zero h = (x, refl)
  get_elem?-in (x ∷ xs) (suc i) h = get_elem?-in xs i (omega arith)

  pub make-IsRing : (a : A) (n : ℕ) → 0 < n → IsRing (make a n)
  unfolding make
  make-IsRing a n h = record {
    has_slots = h;
    filled = length-replicate n a;
    head_in = h;
    size_in = omega arith;
    head_next = λ _. refl;
  }

  pub append-IsRing : (s : Ring A) (e : A) → IsRing s → IsRing (append s e)
  unfolding append
  append-IsRing s e r = record {
    has_slots = r.has_slots;
    filled = length-set s.buf s.head e ∙ r.filled;
    head_in = mod-lt (s.head + 1) r.has_slots;
    size_in = ground arith;
    head_next = λ h. grind (arith, wrap_low (s.head + 1) s.capacity, r.head_next);
  }

  -- two reads that meet the same slots give the same list
  pub read_from-ext :
      (s t : Ring A) (i j n : ℕ)
      → ((k : ℕ) → k < n → slot s (i + k) ≡ slot t (j + k))
      → read_from s i n ≡ read_from t j n
  unfolding read_from
  read_from-ext s t i j zero h = refl
  read_from-ext s t i j (suc n) h =
      let here : slot s i ≡ slot t j = rw (add-zero, add-zero) at (h 0 (omega arith)) in
      let later =
        read_from-ext s t (suc i) (suc j) n
          λ k p. rw (suc-add, suc-add, ← add-suc, ← add-suc) (h (suc k) (omega arith)) in
      ap₂ put_front here later

  abbrev pub snoc : Option (List A) → Option A → Option (List A)
  snoc (some xs) (some x) = some (xs ++ x ∷ [])
  snoc (some xs) none = none
  snoc none _ = none

  put_front-snoc :
      (o : Option A) (r : Option (List A)) (x : Option A)
      → put_front o (snoc r x) ≡ snoc (put_front o r) x
  put_front-snoc none r x = refl
  put_front-snoc (some a) none x = refl
  put_front-snoc (some a) (some es) none = refl
  put_front-snoc (some a) (some es) (some x) = refl

  pub read_from-snoc :
      (s : Ring A) (i n : ℕ) → read_from s i (suc n) ≡ snoc (read_from s i n) (slot s (i + n))
  unfolding read_from
  read_from-snoc s i zero = rw add-zero (one (slot s i))
    where
      one : (o : Option A) → put_front o (some []) ≡ snoc (some []) o
      one none = refl
      one (some a) = refl
  read_from-snoc s i (suc n) =
      ap (put_front (slot s i)) (read_from-snoc s (suc i) n ∙ rw (suc-add, ← add-suc) refl)
      ∙ put_front-snoc (slot s i) (read_from s (suc i) n) (slot s (i + suc n))

  -- every read within the array succeeds
  pub read_from-total :
      (s : Ring A) (i n : ℕ)
      → IsRing s
      → (xs : List A) × (read_from s i n ≡ some xs) × (length xs ≡ n)
  unfolding read_from
  read_from-total s i zero r = ([], refl, refl)
  read_from-total s i (suc n) r =
      let (x, e) =
        get_elem?-in s.buf ((start_of s + i) % s.capacity) (rw r.filled (mod-lt _ r.has_slots)) in
      let (xs, f, l) = read_from-total s (suc i) n r in (x ∷ xs, ap₂ put_front e f, ap suc l)

  -- where `List` starts after an append, before the array is full and when it is
  start_free : (s : Ring A) (e : A) → IsRing s → s.size < s.capacity → start_of (append s e) ≡ 0
  unfolding append start_of
  start_free s e r free = ground (arith, r.head_next free, wrap_high (s.head + 1) s.capacity)

  start_free_old : (s : Ring A) → s.size < s.capacity → start_of s ≡ 0
  unfolding start_of
  start_free_old s free = ground arith

  start_full :
      (s : Ring A) (e : A) → s.size ≡ s.capacity → start_of (append s e) ≡ (s.head + 1) % s.capacity
  unfolding append start_of
  start_full s e full = ground arith

  start_full_old : (s : Ring A) → s.size ≡ s.capacity → start_of s ≡ s.head
  unfolding start_of
  start_full_old s full = ground arith

  -- Before the array is full the events stand from slot 0 on, and the new one comes behind them.
  pub slots_old :
      (s : Ring A) (e : A) (i : ℕ)
      → IsRing s
      → s.size < s.capacity
      → i < s.size
      → slot (append s e) i ≡ slot s i
  unfolding append
  slots_old s e i r free old =
      rw (start_free s e r free, start_free_old s free, wrap_low (0 + i) s.capacity (omega arith))
        (get_elem?-set_other s.buf s.head (0 + i) e (omega (arith, r.head_next free)))

  pub slots_new :
      (s : Ring A) (e : A) → IsRing s → s.size < s.capacity → slot (append s e) s.size ≡ some e
  unfolding append
  slots_new s e r free =
      rw (start_free s e r free, zero-add, wrap_low s.size s.capacity free, ← r.head_next free)
        (get_elem?-set_same s.buf s.head e (omega (arith, r.filled, r.head_in)))

  -- When it is full the oldest event is overwritten.
  pub slots_shift :
      (s : Ring A) (e : A) (i : ℕ)
      → IsRing s
      → s.size ≡ s.capacity
      → suc i < s.capacity
      → slot (append s e) i ≡ slot s (suc i)
  unfolding append
  slots_shift s e i r full old =
      let at : s.head + 1 + i ≡ s.head + suc i = omega arith in
      rw (start_full s e full, start_full_old s full, mod-add-mod, at)
        (get_elem?-set_other s.buf s.head _ e
          λ same. wrap-ne s.head (suc i) s.capacity r.head_in (omega arith) old (sym same))

  pub slots_last :
      (s : Ring A) (e : A) (i : ℕ)
      → IsRing s
      → s.size ≡ s.capacity
      → suc i ≡ s.capacity
      → slot (append s e) i ≡ some e
  unfolding append
  slots_last s e i r full last =
      let at : s.head + 1 + i ≡ s.head + s.capacity = omega arith in
      let back : (s.head + s.capacity) % s.capacity ≡ s.head =
        wrap_high _ s.capacity (omega arith) (omega (arith, r.head_in)) ∙ omega arith in
      rw (start_full s e full, mod-add-mod, at, back)
        (get_elem?-set_same s.buf s.head e (omega (arith, r.filled, r.head_in)))
