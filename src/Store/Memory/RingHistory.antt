-- ===== src/Store/Memory/RingHistory.antt =====
-- What `List` of a ring buffer gives after any number of appends.
use mathlib.Core.Path.{ap₂}
use native.Mathlib.Nat.{zero-add}
use mathlib.Core.List.{append_assoc, append-nil}
use authpilot.Common.{
  ℕ, zero, suc, ◌+◌, ◌-◌, ◌≤◌, ◌<◌, ◌≡◌, refl, sym, ap, ◌∙◌, Bool, true, false, Option, none, some,
  List, [], ◌∷◌, ◌++◌, arith, if◌then◌else◌, Bool-cases, ltb-false, inl, inr, ltb, eqb, length,
  keep,
}
use authpilot.Domain.{AuditEvent, zero_audit_event, ScimEvent, zero_scim_event}
use authpilot.Store.Memory.Ring.{
  Ring, make, append, slot, put_front, put_passing, read_from, new_audit_store, AuditFilter, passes,
  list_from, list_audit, new_scim_event_store, list_scim, default_scim_event_cap, default_audit_cap,
}
use authpilot.Store.Memory.RingList.{
  IsRing, make-IsRing, append-IsRing, read_from-ext, snoc, read_from-snoc, read_from-total,
  slots_old, slots_new, slots_shift, slots_last,
}

module _ {A : Type 0} where
  abbrev pub drop : ℕ → List A → List A
  drop zero xs = xs
  drop (suc n) [] = []
  drop (suc n) (x ∷ xs) = drop n xs

  -- the last `n` entries of a list
  abbrev pub last_n : ℕ → List A → List A
  last_n n xs = drop (length xs - n) xs

  -- one entry more, in a list of at most `n`
  abbrev push_bounded : ℕ → List A → A → List A
  push_bounded n xs e = if ltb (length xs) n then xs ++ e ∷ [] else drop 1 xs ++ e ∷ []

  unfoldable pub append_all : Ring A → List A → Ring A
  append_all s [] = s
  append_all s (e ∷ es) = append_all (append s e) es

  length-snoc : (xs : List A) (e : A) → length (xs ++ e ∷ []) ≡ suc (length xs)
  length-snoc [] e = refl
  length-snoc (x ∷ xs) e = ap suc (length-snoc xs e)

  length-drop : (k : ℕ) (xs : List A) → length (drop k xs) ≡ length xs - k
  length-drop zero xs = omega arith
  length-drop (suc k) [] = omega arith
  length-drop (suc k) (x ∷ xs) = omega (arith, length-drop k xs)

  drop-nil : (k : ℕ) → ◌≡◌ {A = List A} (drop k []) []
  drop-nil zero = refl
  drop-nil (suc k) = refl

  drop-one-drop : (k : ℕ) (xs : List A) → drop 1 (drop k xs) ≡ drop (suc k) xs
  drop-one-drop zero xs = refl
  drop-one-drop (suc k) [] = refl
  drop-one-drop (suc k) (x ∷ xs) = drop-one-drop k xs

  drop-snoc :
      (k : ℕ) (xs : List A) (e : A) → k ≤ length xs → drop k (xs ++ e ∷ []) ≡ drop k xs ++ e ∷ []
  drop-snoc zero xs e h = refl
  drop-snoc (suc k) [] e h = absurd (omega arith)
  drop-snoc (suc k) (x ∷ xs) e h = drop-snoc k xs e (omega arith)

  push_bounded-last_n :
      (n : ℕ) (xs : List A) (e : A)
      → 0 < n
      → push_bounded n (last_n n xs) e ≡ last_n n (xs ++ e ∷ [])
  push_bounded-last_n n xs e pos = elim (Bool-cases (ltb (length xs) n)) [
    | inl few ↦
        let none_dropped : length xs - n ≡ 0 = ground arith in
        let nor_later : length (xs ++ e ∷ []) - n ≡ 0 = ground (arith, length-snoc xs e) in
        rw (none_dropped, nor_later, few) refl
    | inr many ↦
        let k : ℕ = length xs - n in
        let later : length (xs ++ e ∷ []) - n ≡ suc k = ground (arith, length-snoc xs e) in
        let full : ltb (length (drop k xs)) n ≡ false = ground (arith, length-drop k xs) in
        rw (later, full, drop-one-drop k xs) (sym (drop-snoc (suc k) xs e (ground arith)))
  ]

  abbrev contents : Ring A → Option (List A)
  contents s = read_from s 0 s.size

  size-append_free : (s : Ring A) (e : A) → s.size < s.capacity → (append s e).size ≡ suc s.size
  unfolding append
  size-append_free s e free = ground arith

  size-append_full : (s : Ring A) (e : A) → s.size ≡ s.capacity → (append s e).size ≡ s.capacity
  unfolding append
  size-append_full s e full = ground arith

  capacity-append : (s : Ring A) (e : A) → (append s e).capacity ≡ s.capacity
  unfolding append
  capacity-append s e = refl

  contents-append_free :
      (s : Ring A) (e : A) (xs : List A)
      → IsRing s
      → s.size < s.capacity
      → contents s ≡ some xs
      → contents (append s e) ≡ some (xs ++ e ∷ [])
  contents-append_free s e xs r free h =
      let same =
        read_from-ext (append s e) s 0 0 s.size (λ k p. rw zero-add (slots_old s e k r free p)) in
      let new : slot (append s e) (0 + s.size) ≡ some e = rw zero-add (slots_new s e r free) in
      ap (read_from (append s e) 0) (size-append_free s e free)
      ∙ read_from-snoc (append s e) 0 s.size
      ∙ ap₂ snoc (same ∙ h) new

  put_front-inv :
      (o : Option A) (r : Option (List A)) (xs : List A)
      → put_front o r ≡ some xs
      → (a : A) × (ys : List A) × (o ≡ some a) × (r ≡ some ys) × (xs ≡ a ∷ ys)
  put_front-inv none r xs h = cc
  put_front-inv (some a) none xs h = cc
  put_front-inv (some a) (some ys) xs h = (a, ys, refl, refl, cc)

  shifted :
      (s : Ring A) (e : A) (k : ℕ)
      → IsRing s
      → s.size ≡ s.capacity
      → suc k < s.capacity
      → slot (append s e) (0 + k) ≡ slot s (1 + k)
  shifted s e k r full p =
      let here : 0 + k ≡ k = omega arith in
      let there : suc k ≡ 1 + k = omega arith in
      ap (slot (append s e)) here ∙ slots_shift s e k r full p ∙ ap (slot s) there

  contents-append_full :
      (s : Ring A) (e : A) (xs : List A) (m : ℕ)
      → IsRing s
      → s.size ≡ s.capacity
      → s.capacity ≡ suc m
      → contents s ≡ some xs
      → contents (append s e) ≡ some (drop 1 xs ++ e ∷ [])
  unfolding read_from
  contents-append_full s e xs m r full c h =
      let (a, ys, here, f, whole) =
        put_front-inv (slot s 0) (read_from s 1 m) xs (ap (read_from s 0) (sym (full ∙ c)) ∙ h) in
      let same = read_from-ext (append s e) s 0 1 m (λ k p. shifted s e k r full (omega arith)) in
      let new : slot (append s e) (0 + m) ≡ some e =
        rw zero-add (slots_last s e m r full (sym c)) in
      ap (read_from (append s e) 0) (size-append_full s e full ∙ c)
      ∙ read_from-snoc (append s e) 0 m
      ∙ ap₂ snoc (same ∙ f) new
      ∙ ap (λ zs. some (drop 1 zs ++ e ∷ [])) (sym whole)

  -- One more event, before the array is full and when it is.
  contents-append :
      (s : Ring A) (e : A) (xs : List A)
      → IsRing s
      → contents s ≡ some xs
      → contents (append s e) ≡ some (push_bounded s.capacity xs e)
  contents-append s e xs r h =
      let (ys, f, l) = read_from-total s 0 s.size r in
      let same : xs ≡ ys = cc (sym h ∙ f) in
      let long : length xs ≡ s.size = rw same l in
      elim (Bool-cases (ltb s.size s.capacity)) [
        | inl free ↦ rw (long, free) (contents-append_free s e xs r (ground arith) h)
        | inr full ↦
            rw (long, full)
              (contents-append_full s e xs (s.capacity - 1) r
                (omega (arith, r.size_in, ltb-false _ _ full)) (omega (arith, r.has_slots)) h)
      ]

  -- After any appends, the contents are the latest `capacity` of all the entries.
  contents-append_all :
      (s : Ring A) (xs es : List A)
      → IsRing s
      → contents s ≡ some (last_n s.capacity xs)
      → contents (append_all s es) ≡ some (last_n s.capacity (xs ++ es))
  unfolding append_all append
  contents-append_all s xs [] r h = rw append-nil h
  contents-append_all s xs (e ∷ es) r h =
      let now =
        contents-append s e _ r h ∙ ap some (push_bounded-last_n s.capacity xs e r.has_slots) in
      let later = contents-append_all (append s e) (xs ++ e ∷ []) es (append-IsRing s e r) now in
      rw append_assoc at later

  contents-make :
      (z : A) (n : ℕ) (es : List A)
      → 0 < n
      → contents (append_all (make z n) es) ≡ some (last_n n es)
  unfolding make read_from
  contents-make z n es pos =
      contents-append_all (make z n) [] es (make-IsRing z n pos) (rw (drop-nil (0 - n)) refl)

-- After any appends to a new store of capacity `n`, where 0 stands for the default of 10000, the
-- list of SCIM events is the latest of them, at most as many as the capacity, the oldest first.
pub list_scim-append_all :
    (n : ℕ) (es : List ScimEvent)
    → list_scim (append_all (new_scim_event_store n) es)
      ≡ some (last_n (if eqb n 0 then default_scim_event_cap else n) es)
unfolding list_scim new_scim_event_store
list_scim-append_all n es = contents-make zero_scim_event _ es (ground arith)

list_from-keep :
    (filter : AuditFilter) (s : Ring AuditEvent) (i n : ℕ) (xs : List AuditEvent)
    → read_from s i n ≡ some xs
    → list_from filter s i n ≡ some (keep (passes filter) xs)
unfolding list_from read_from
list_from-keep filter s i zero xs h = cc
list_from-keep filter s i (suc n) xs h =
    let (a, ys, here, rest, whole) = put_front-inv (slot s i) (read_from s (suc i) n) xs h in
    let later = list_from-keep filter s (suc i) n ys rest in
    ap₂ (put_passing filter) here later
    ∙ kept (passes filter a) a (keep (passes filter) ys)
    ∙ ap (λ zs. some (keep (passes filter) zs)) (sym whole)
  where
    kept :
        (b : Bool) (a : AuditEvent) (zs : List AuditEvent)
        → (if b then put_front (some a) (some zs) else some zs) ≡ some (if b then a ∷ zs else zs)
    kept true a zs = refl
    kept false a zs = refl

-- After any appends to a new audit store of capacity `n`, where 0 stands for the default of 10000,
-- `List` gives those of the latest events, at most as many as the capacity, that the filter lets
-- through, the oldest first; it never reads out of range.
pub list_audit-append_all :
    (n : ℕ) (filter : AuditFilter) (es : List AuditEvent)
    → list_audit (append_all (new_audit_store n) es) filter
      ≡ some (keep (passes filter) (last_n (if eqb n 0 then default_audit_cap else n) es))
unfolding list_audit new_audit_store
list_audit-append_all n filter es =
    list_from-keep filter (append_all (new_audit_store n) es) 0 _ _
      (contents-make zero_audit_event _ es (ground arith))
