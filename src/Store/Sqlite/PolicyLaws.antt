-- ===== src/Store/Sqlite/PolicyLaws.antt =====
-- What the store of policies keeps: one row for each ID, one active version for each name.
use mathlib.Core.Path.{subst}
use mathlib.Core.List.{map-map}
use authpilot.Common.{
  ℕ, ◌≤◌, String, ◌≡◌, ◌≢◌, refl, sym, ap, ◌∙◌, Bool, true, ◌&&◌, Option, none, some, List, [], ◌∷◌,
  ◌==◌, if◌then◌else◌, map, count_if, All, arith, eq_iff, eq_refl, Bool-cases, Option-cases, inl,
  inr,
}
use authpilot.Domain.{Policy}
use authpilot.Store.Sqlite.Policies.{
  Signer, PolicyResult, policy, no_policy, not_found, first_row, get_by_name, checked, deactivated,
  made_active, activate,
}

abbrev pub is_active : String → Policy → Bool
is_active name p = (p.name == name) && p.active

abbrev pub has_id : String → Policy → Bool
has_id id p = p.id == id

pub record IsValid (rows : List Policy) : Type 0 where
  pub unique : (id : String) → count_if (has_id id) rows ≤ 1
  pub one_active : (name : String) → count_if (is_active name) rows ≤ 1

-- the row that an activation makes of a row
abbrev pub activated_row : String → String → ℕ → String → Policy → Policy
activated_row name id at signature p = made_active id at signature (deactivated name p)

none_has :
    (id name : String) (rows : List Policy)
    → count_if (has_id id) rows ≤ 0
    → All (λ (q : Policy). (q.id == id) ≡ true → q.name ≡ name) rows
none_has id name [] h = tt
none_has id name (q ∷ rows) h = elim (Bool-cases (q.id == id)) [
  | inl hit ↦ ground (arith, hit, h)
  | inr miss ↦ (λ e. cc (sym miss ∙ e), none_has id name rows (ground (arith, miss, h)))
]

abbrev name_or : String → Option Policy → String
name_or default none = default
name_or default (some p) = p.name

-- where the IDs are unique, the first row of an ID is the only one
pub same_id :
    (id : String) (rows : List Policy) (p : Policy)
    → count_if (has_id id) rows ≤ 1
    → first_row (has_id id) rows ≡ some p
    → All (λ (q : Policy). (q.id == id) ≡ true → q.name ≡ p.name) rows
unfolding first_row
same_id id [] p h e = tt
same_id id (q ∷ rows) p h e = elim (Bool-cases (q.id == id)) [
  | inl hit ↦
      let same : some q ≡ some p = rw hit at e in
      (λ e. ap (λ o. name_or "" o) same, none_has id p.name rows (ground (arith, hit, h)))
  | inr miss ↦ (λ e. cc (sym miss ∙ e), same_id id rows p (ground (arith, miss, h)) (rw miss at e))
]

-- how many rows of a name are active after an activation
pub count_active :
    (name id other : String) (at : ℕ) (signature : String) (rows : List Policy)
    → All (λ (q : Policy). (q.id == id) ≡ true → q.name ≡ name) rows
    → count_if (is_active other) (map (activated_row name id at signature) rows)
      ≡ (if other == name then count_if (has_id id) rows else count_if (is_active other) rows)
unfolding deactivated made_active
count_active name id other at signature [] h = ground arith
count_active name id other at signature (q ∷ rows) h = ground (
  arith,
  h.0,
  count_active name id other at signature rows h.1,
  eq_iff other name,
  eq_iff q.name name,
  eq_iff q.name other,
)

pub count_ids :
    (name id other : String) (at : ℕ) (signature : String) (rows : List Policy)
    → count_if (has_id other) (map (activated_row name id at signature) rows)
      ≡ count_if (has_id other) rows
unfolding deactivated made_active
count_ids name id other at signature [] = refl
count_ids name id other at signature (q ∷ rows) =
    ground (arith, count_ids name id other at signature rows)

abbrev row_or : Policy → Option Policy → Policy
row_or default none = default
row_or default (some p) = p

-- the active row of the name after an activation
first_active :
    (id : String) (at : ℕ) (signature : String) (rows : List Policy) (p : Policy)
    → first_row (has_id id) rows ≡ some p
    → All (λ (q : Policy). (q.id == id) ≡ true → q.name ≡ p.name) rows
    → first_row (is_active p.name) (map (activated_row p.name id at signature) rows)
      ≡ some (record p { active = true; activated_at = some at; signature = signature })
unfolding first_row deactivated made_active
first_active id at signature [] p e h = cc
first_active id at signature (q ∷ rows) p e h = elim (Bool-cases (q.id == id)) [
  | inl hit ↦
      let same : some q ≡ some p = rw hit at e in
      let is : q ≡ p = ap (row_or q) same in
      let there : (p.id == id) ≡ true = subst (λ z. (z.id == id) ≡ true) is hit in
      subst
        (λ z.
          first_row (is_active p.name) (map (activated_row p.name id at signature) (z ∷ rows))
          ≡ some (record p { active = true; activated_at = some at; signature = signature }))
        (sym is) (ground (arith, there, eq_refl p.name))
  | inr miss ↦ ground (arith, miss, first_active id at signature rows p (rw miss at e) h.1)
]

-- and of another name
first_other :
    (name id other : String) (at : ℕ) (signature : String) (rows : List Policy)
    → other ≢ name
    → All (λ (q : Policy). (q.id == id) ≡ true → q.name ≡ name) rows
    → first_row (is_active other) (map (activated_row name id at signature) rows)
      ≡ first_row (is_active other) rows
unfolding first_row deactivated made_active
first_other name id other at signature [] apart h = refl
first_other name id other at signature (q ∷ rows) apart h = ground (
  arith,
  h.0,
  first_other name id other at signature rows apart h.1,
  eq_iff q.name name,
  eq_iff q.name other,
)

pub activate_map :
    (s : Signer) (rows : List Policy) (id : String) (at : ℕ) (p : Policy)
    → first_row (has_id id) rows ≡ some p
    → (activate (some s) rows id at).0
      ≡ map (activated_row p.name id at (s.sign p.content_hash)) rows
unfolding activate
activate_map s rows id at p stored =
    rw (stored, activate)
      (map-map (made_active id at (s.sign p.content_hash)) (deactivated p.name) rows)

-- what a name leads to, by its active row
abbrev pub of_row : Option Signer → Option Policy → PolicyResult
of_row signer none = no_policy not_found
of_row signer (some p) = checked signer p

pub get_by_name_lem :
    (signer : Option Signer) (rows : List Policy) (name : String)
    → get_by_name signer rows name ≡ of_row signer (first_row (is_active name) rows)
unfolding get_by_name
get_by_name_lem signer rows name = elim (Option-cases (first_row (is_active name) rows)) [
  | inl (p, e) ↦ rw (e, get_by_name) refl
  | inr e ↦ rw (e, get_by_name) refl
]

-- After an activation of a stored version every name has at most one active version still; the name of the
-- version leads to that version, signed over the hash of its content, and every other name leads to
-- what it led to before. The signer must accept its own signatures.
pub activate_lem :
    (s : Signer) (rows : List Policy) (id : String) (at : ℕ) (p : Policy)
    → ((text : String) → s.verify text (s.sign text) ≡ true)
    → IsValid rows
    → first_row (has_id id) rows ≡ some p
    → let after = (activate (some s) rows id at).0 in
      IsValid after
      × (get_by_name (some s) after p.name
          ≡ policy (record p {
            active = true;
            activated_at = some at;
            signature = s.sign p.content_hash;
          }))
      × ((other : String)
          → other ≢ p.name
          → get_by_name (some s) after other ≡ get_by_name (some s) rows other)
unfolding checked
activate_lem s rows id at p honest valid stored =
    let same = same_id id rows p (valid.unique id) stored in
    let sig = s.sign p.content_hash in
    rw (activate_map s rows id at p stored) (
      record {
        unique = λ other. rw (count_ids p.name id other at sig rows) (valid.unique other);
        one_active = λ other.
            rw (count_active p.name id other at sig rows same)
              (ground (arith, valid.unique id, valid.one_active other));
      },
      get_by_name_lem (some s) _ p.name
          ∙ ap (of_row (some s)) (first_active id at sig rows p stored same)
          ∙ rw (honest p.content_hash) (ground arith),
      λ other apart.
          get_by_name_lem (some s) _ other
          ∙ ap (of_row (some s)) (first_other p.name id other at sig rows apart same)
          ∙ sym (get_by_name_lem (some s) rows other),
    )
