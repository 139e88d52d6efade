-- ===== src/Opa/DiffLaws.antt =====
-- What the comparison of two policy documents says.
use mathlib.Core.Path.{subst}
use authpilot.Common.{
  String, ◌≡◌, refl, sym, ap, ◌∙◌, Bool, true, false, not, ◌&&◌, some, List, [], ◌∷◌, ◌++◌, ◌==◌,
  ◌⊎◌, if◌then◌else◌, contains, keep, All, keep-All, All-append, sort_by-All, arith, Bool-cases,
  Option-cases, inl, inr, eq_iff, eq_refl,
}
use authpilot.Common.GoMap.{GoMap, lookup}
use authpilot.Domain.{Value}
use authpilot.Domain.Json.{sprint}
use authpilot.Scim.GroupPatch.{without}
use authpilot.Scim.Members.{contains-without}
use authpilot.Opa.Diff.{
  is_nil, DiffResponse, as_map, map_field, keys, string_keys, union_keys, added, removed, bump_max,
  changed_actions, changed_roles, diff_resource, diff_resources, diff_roles, compute_diff,
}

keep_none :
    (test : String → Bool) (xs : List String) → All (λ x. test x ≡ false) xs → keep test xs ≡ []
keep_none test [] h = refl
keep_none test (x ∷ xs) h = ground (arith, h.0, keep_none test xs h.1)

contained :
    (all xs : List String)
    → ((x : String) → contains xs x ≡ true → contains all x ≡ true)
    → All (λ x. not (contains all x) ≡ false) xs
contained all [] h = tt
contained all (x ∷ xs) h =
    (rw (h x (rw (eq_refl x) refl)) refl, contained all xs (λ y e. h y (ground (arith, e))))

added_self : (xs : List String) → added xs xs ≡ []
unfolding added
added_self xs = keep_none (λ v. not (contains xs v)) xs (contained xs xs (λ x e. e))

abbrev IsKey : GoMap Value → String → Type 0
IsKey m k = (v : Value) × (lookup k m ≡ some v)

keys-later :
    (k : String) (v : Value) (m : GoMap Value) (ks : List String)
    → All (IsKey m) ks
    → All (IsKey ((k, v) ∷ m)) ks
unfolding lookup
keys-later k v m [] h = tt
keys-later k v m (j ∷ ks) ((w, e), h) = (
  elim (Bool-cases (k == j)) [ inl hit ↦ (v, rw hit refl) | inr miss ↦ (w, rw miss e) ],
  keys-later k v m ks h,
)

keys-IsKey : (m : GoMap Value) → All (IsKey m) (keys m)
unfolding keys lookup
keys-IsKey [] = tt
keys-IsKey ((k, v) ∷ m) = ((v, rw (eq_refl k) refl), keys-later k v m (keys m) (keys-IsKey m))

union_keys-IsKey : (m : GoMap Value) → All (IsKey m) (union_keys m m)
unfolding union_keys
union_keys-IsKey m =
    sort_by-All (λ x. x) (IsKey m) (keys m ++ keep (λ k. not (contains (keys m) k)) (keys m))
      (All-append (IsKey m) (keys m) (keep (λ k. not (contains (keys m) k)) (keys m)) (keys-IsKey m)
        (keep-All (IsKey m) (λ k. not (contains (keys m) k)) (keys m) (keys-IsKey m)))

changed_actions_self :
    (m : GoMap Value) (actions : List String)
    → changed_actions m m actions ≡ record { old = []; new = [] }
unfolding changed_actions
changed_actions_self m [] = refl
changed_actions_self m (action ∷ actions) = elim (Option-cases (lookup action m)) [
  | inr e ↦ rw (e, changed_actions) (changed_actions_self m actions)
  | inl (v, e) ↦
      rw (e, changed_actions) (rw (e, eq_refl (sprint v)) (changed_actions_self m actions))
]

changed_roles_self : (m : GoMap Value) (roles : List String) → changed_roles m m roles ≡ []
unfolding changed_roles
changed_roles_self m [] = refl
changed_roles_self m (role ∷ roles) =
    rw
      (changed_actions_self (as_map (lookup role m))
        (union_keys (as_map (lookup role m)) (as_map (lookup role m))))
      (changed_roles_self m roles)

diff_resources_self :
    (m : GoMap Value) (resp : DiffResponse) (resources : List String)
    → All (IsKey m) resources
    → diff_resources m m resp resources ≡ resp
unfolding diff_resources diff_resource
diff_resources_self m resp [] h = refl
diff_resources_self m resp (resource ∷ resources) ((v, e), h) =
    rw (e, diff_resource)
      (rw (e, changed_roles_self (as_map (some v)) (union_keys (as_map (some v)) (as_map (some v))))
        (diff_resources_self m resp resources h))

-- The comparison of a document with itself finds nothing and recommends no new version.
pub compute_diff_self :
    (doc : GoMap Value)
    → compute_diff doc doc ≡ record {
      added_roles = [];
      removed_roles = [];
      added_systems = [];
      removed_systems = [];
      added_permissions = [];
      removed_permissions = [];
      changed_permissions = [];
      recommended_bump = "none";
      summary = "";
    }
unfolding compute_diff diff_roles
compute_diff_self doc =
    diff_resources_self (map_field doc "permissions") (diff_roles doc doc)
      (union_keys (map_field doc "permissions") (map_field doc "permissions"))
      (union_keys-IsKey (map_field doc "permissions"))
    ∙ rw (added_self (string_keys (map_field doc "roles"))) refl

-- a step of at most "minor" neither reaches "major" nor leaves it
kept_major : (step : String) → (step ≡ "minor") ⊎ (step ≡ "patch") → bump_max "major" step ≡ "major"
unfolding bump_max
kept_major step (inl e) = rw e refl
kept_major step (inr e) = rw e refl

step_minor : (step : String) → (step ≡ "minor") ⊎ (step ≡ "patch") → (step == "major") ≡ false
step_minor step (inl e) = rw e refl
step_minor step (inr e) = rw e refl

neither_major :
    (b : Bool) (x y : String)
    → (x == "major") ≡ false
    → (y == "major") ≡ false
    → ((if b then x else y) == "major") ≡ false
neither_major true x y h k = h
neither_major false x y h k = k

bump_kept :
    (c step : String)
    → (step ≡ "minor") ⊎ (step ≡ "patch")
    → (bump_max c step == "major") ≡ (c == "major")
unfolding bump_max
bump_kept c step which = elim (Bool-cases (c == "major")) [
  | inl hit ↦
      let is = (eq_iff c "major").0 hit in
      subst (λ z. (bump_max z step == "major") ≡ (z == "major")) (sym is)
        (ap (λ z. z == "major") (kept_major step which))
  | inr miss ↦ neither_major _ step c (step_minor step which) miss ∙ sym miss
]

-- the roles that a response lists, and whether it recommends a new major version
abbrev SameRoles : DiffResponse → DiffResponse → Type 0
SameRoles r s =
    (r.added_roles ≡ s.added_roles)
    × (r.removed_roles ≡ s.removed_roles)
    × ((r.recommended_bump == "major") ≡ (s.recommended_bump == "major"))

diff_resource-SameRoles :
    (before after : GoMap Value) (resp : DiffResponse) (resource : String)
    → SameRoles (diff_resource before after resp resource) resp
unfolding diff_resource
diff_resource-SameRoles before after resp resource = ground (
  arith,
  bump_kept resp.recommended_bump "minor" (inl refl),
  bump_kept resp.recommended_bump "patch" (inr refl),
)

diff_resources-SameRoles :
    (before after : GoMap Value) (resp : DiffResponse) (resources : List String)
    → SameRoles (diff_resources before after resp resources) resp
unfolding diff_resources
diff_resources-SameRoles before after resp [] = (refl, refl, refl)
diff_resources-SameRoles before after resp (resource ∷ resources) =
    let (a, r, b) =
      diff_resources-SameRoles before after (diff_resource before after resp resource) resources in
    let (a', r', b') = diff_resource-SameRoles before after resp resource in
    (a ∙ a', r ∙ r', b ∙ b')

none_or_major : (b : Bool) → ((if b then "none" else "major") == "major") ≡ not b
none_or_major true = refl
none_or_major false = refl

diff_roles-major :
    (before after : GoMap Value)
    → ((diff_roles before after).recommended_bump == "major")
      ≡ not (
          is_nil (diff_roles before after).added_roles
          && is_nil (diff_roles before after).removed_roles)
unfolding diff_roles
diff_roles-major before after = none_or_major _

-- The comparison recommends a new major version exactly where it lists a role that was added or removed,
-- and the roles it lists are those of one document that the other has not.
pub compute_diff-major :
    (before after : GoMap Value)
    → let r = compute_diff before after in
      ((r.recommended_bump == "major") ≡ not (is_nil r.added_roles && is_nil r.removed_roles))
      × ((role : String)
          → contains r.added_roles role ≡ (
              contains (string_keys (map_field after "roles")) role
              && not (contains (string_keys (map_field before "roles")) role)))
      × ((role : String)
          → contains r.removed_roles role ≡ (
              contains (string_keys (map_field before "roles")) role
              && not (contains (string_keys (map_field after "roles")) role)))
unfolding compute_diff diff_roles added removed without
compute_diff-major before after =
    let (a, r, b) =
      diff_resources-SameRoles (map_field before "permissions") (map_field after "permissions")
        (diff_roles before after)
        (union_keys (map_field before "permissions") (map_field after "permissions")) in
    let old = string_keys (map_field before "roles") in
    let new = string_keys (map_field after "roles") in
    (
      b ∙ diff_roles-major before after ∙ sym (λ i. not (is_nil (a i) && is_nil (r i))),
      λ role. ap (λ l. contains l role) a ∙ contains-without old new role,
      λ role. ap (λ l. contains l role) r ∙ contains-without new old role,
    )
