-- ===== src/Scim/Members.antt =====
-- The members of a group under PATCH.
use authpilot.Common.{
  String, ◌≡◌, refl, ◌∙◌, true, false, not, ◌&&◌, ◌||◌, List, [], ◌∷◌, ◌++◌, ◌==◌, arith, contains,
  eq_iff, Bool-cases, inl, inr,
}
use authpilot.Scim.GroupPatch.{add_new, without}

contains-append_one :
    (ms : List String) (id x : String) → contains (ms ++ (id ∷ [])) x ≡ (contains ms x || (id == x))
contains-append_one [] id x = ground arith
contains-append_one (m ∷ ms) id x = ground (arith, contains-append_one ms id x)

contains_eq : (ms : List String) (x y : String) → (x == y) ≡ true → contains ms x ≡ contains ms y
contains_eq ms x y e = rw ((eq_iff x y).0 e) refl

-- After an addition the members are the ones before it and the ones that were added.
pub contains-add_new :
    (ms ids : List String) (x : String)
    → contains (add_new ms ids) x ≡ (contains ms x || contains ids x)
unfolding add_new
contains-add_new ms [] x = ground arith
contains-add_new ms (id ∷ ids) x = elim (Bool-cases (contains ms id)) [
  | inl there ↦ rw there (ground (arith, contains-add_new ms ids x, contains_eq ms id x))
  | inr new ↦
      rw new (ground (arith, contains-add_new (ms ++ (id ∷ [])) ids x, contains-append_one ms id x))
]

pub contains-without :
    (ids ms : List String) (x : String)
    → contains (without ids ms) x ≡ (contains ms x && not (contains ids x))
unfolding without
contains-without ids [] x = refl
contains-without ids (m ∷ ms) x = ground (arith, contains-without ids ms x, contains_eq ids m x)

-- no member is listed twice
abbrev pub HasNoRepeats : List String → Type 0
HasNoRepeats [] = Unit
HasNoRepeats (m ∷ ms) = (contains ms m ≡ false) × HasNoRepeats ms

append_one-HasNoRepeats :
    (ms : List String) (id : String)
    → contains ms id ≡ false
    → HasNoRepeats ms
    → HasNoRepeats (ms ++ (id ∷ []))
append_one-HasNoRepeats [] id new h = (refl, tt)
append_one-HasNoRepeats (m ∷ ms) id new h =
    ground
      (arith, append_one-HasNoRepeats ms id, contains-append_one ms id m, eq_iff m id, eq_iff id m)

pub add_new-HasNoRepeats : (ms ids : List String) → HasNoRepeats ms → HasNoRepeats (add_new ms ids)
unfolding add_new
add_new-HasNoRepeats ms [] h = h
add_new-HasNoRepeats ms (id ∷ ids) h = elim (Bool-cases (contains ms id)) [
  | inl there ↦ rw there (add_new-HasNoRepeats ms ids h)
  | inr new ↦
      rw new (add_new-HasNoRepeats (ms ++ (id ∷ [])) ids (append_one-HasNoRepeats ms id new h))
]

without-append_one :
    (ids ms : List String) (id : String)
    → contains ids id ≡ true
    → without ids (ms ++ (id ∷ [])) ≡ without ids ms
unfolding without
without-append_one ids [] id h = rw h refl
without-append_one ids (m ∷ ms) id h = ground (arith, without-append_one ids ms id h)

without-add_each :
    (all ms ids : List String)
    → ((x : String) → contains ids x ≡ true → contains all x ≡ true)
    → without all (add_new ms ids) ≡ without all ms
unfolding add_new
without-add_each all ms [] h = refl
without-add_each all ms (id ∷ ids) h =
    let later : (x : String) → contains ids x ≡ true → contains all x ≡ true =
      λ x e. h x (rw e (ground arith)) in
    elim (Bool-cases (contains ms id)) [
      | inl there ↦ rw there (without-add_each all ms ids later)
      | inr new ↦ rw new (
          without-add_each all (ms ++ (id ∷ [])) ids later
          ∙ without-append_one all ms id (h id (ground (arith, eq_iff id id))))
    ]

-- The removal of the IDs that were just added leaves the members that are left when they are removed from
-- the members before the addition.
pub without-add_new : (ms ids : List String) → without ids (add_new ms ids) ≡ without ids ms
without-add_new ms ids = without-add_each ids ms ids (λ x e. e)

add_known :
    (ms ids : List String)
    → ((x : String) → contains ids x ≡ true → contains ms x ≡ true)
    → add_new ms ids ≡ ms
unfolding add_new
add_known ms [] h = refl
add_known ms (id ∷ ids) h =
    rw (h id (ground (arith, eq_iff id id))) (add_known ms ids (λ x e. h x (rw e (ground arith))))

-- A second addition of the same IDs changes nothing.
pub add_new-twice : (ms ids : List String) → add_new (add_new ms ids) ids ≡ add_new ms ids
add_new-twice ms ids =
    add_known (add_new ms ids) ids (λ x e. rw (contains-add_new ms ids x, e) (ground arith))
