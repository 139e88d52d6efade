-- ===== src/Store/Sqlite/PolicyCalls.antt =====
-- Sequences of requests that administer stored policies, and what the check of their signatures does not see.
use mathlib.Core.Path.{subst}
use authpilot.Common.{
  ◌⊎◌, ℕ, ◌≤◌, ◌+◌, String, ◌≡◌, refl, sym, ap, ◌∙◌, Bool, false, not, Option, none, some, List, [],
  ◌∷◌, ◌++◌, ◌==◌, if◌then◌else◌, any, keep, map, count_if, arith, eq_iff, Bool-cases, Option-cases,
  inl, inr,
}
use authpilot.Domain.{Policy}
use authpilot.Store.{ok}
use authpilot.Opa.{OpaConfig, Rego}
use authpilot.Opa.Policies.{
  PolicyStore, PolicyCreateRequest, new_policy, created_policy, create_policy, deleted_policy,
  delete_policy, after_activation, activate_policy,
}
use authpilot.Store.Sqlite.Policies.{
  get_by_id, PolicyError, Signer, PolicyResult, policy, no_policy, create, first_row, get_by_name,
  checked, activate, delete, clashes,
}
use authpilot.Store.Sqlite.PolicyLaws.{
  is_active, has_id, IsValid, same_id, count_active, count_ids, activate_map, of_row,
  get_by_name_lem,
}

count_append :
    (test : Policy → Bool) (rows : List Policy) (p : Policy)
    → count_if test (rows ++ (p ∷ [])) ≡ count_if test rows + (if test p then 1 else 0)
count_append test [] p = ground arith
count_append test (q ∷ rows) p = ground (arith, count_append test rows p)

no_clash :
    (rows : List Policy) (p : Policy)
    → any (clashes p) rows ≡ false
    → count_if (has_id p.id) rows ≡ 0
no_clash [] p h = refl
no_clash (q ∷ rows) p h = ground (arith, no_clash rows p)

create-IsValid :
    (rows : List Policy) (p : Policy) → p.active ≡ false → IsValid rows → IsValid (create rows p).0
unfolding create
create-IsValid rows p inactive valid = elim (Bool-cases (any (clashes p) rows)) [
  | inl taken ↦ rw taken valid
  | inr free ↦ rw free (record {
    unique = λ id.
        rw (count_append (has_id id) rows p)
          (ground (arith, valid.unique id, no_clash rows p free, eq_iff p.id id));
    one_active = λ name.
        rw (count_append (is_active name) rows p, inactive) (ground (arith, valid.one_active name));
  })
]

count_keep :
    (test drop : Policy → Bool) (rows : List Policy)
    → count_if test (keep drop rows) ≤ count_if test rows
count_keep test drop [] = ground arith
count_keep test drop (q ∷ rows) = ground (arith, count_keep test drop rows)

delete-IsValid : (rows : List Policy) (id : String) → IsValid rows → IsValid (delete rows id).0
unfolding delete
delete-IsValid rows id valid = elim (Bool-cases (any (has_id id) rows)) [
  | inr missing ↦ rw missing valid
  | inl there ↦ rw there (record {
    unique = λ other.
        ground (arith, count_keep (has_id other) (λ p. not (p.id == id)) rows, valid.unique other);
    one_active = λ name.
        ground
          (arith, count_keep (is_active name) (λ p. not (p.id == id)) rows, valid.one_active name);
  })
]

activate-IsValid :
    (s : Signer) (rows : List Policy) (id : String) (at : ℕ)
    → IsValid rows
    → IsValid (activate (some s) rows id at).0
unfolding activate
activate-IsValid s rows id at valid = elim (Option-cases (first_row (has_id id) rows)) [
  | inr missing ↦ rw (missing, activate) valid
  | inl (p, stored) ↦
      let same = same_id id rows p (valid.unique id) stored in
      rw (activate_map s rows id at p stored) (record {
        unique = λ other. rw (count_ids p.name id other at _ rows) (valid.unique other);
        one_active = λ other.
            rw (count_active p.name id other at _ rows same)
              (ground (arith, valid.unique id, valid.one_active other));
      })
]

module _ (signer : Option Signer) where
  -- the store, as the handlers use it
  abbrev pub stored_policies : PolicyStore (List Policy)
  stored_policies = record {
    create = create;
    get_by_id = get_by_id;
    get_by_name = get_by_name signer;
    list = λ rows. ok rows;
    activate = activate signer;
    delete = delete;
  }

-- what requests ask of the handlers that change policies, with the ID and the time that each draws
pub data PolicyCall : Type 0 where
  creates : PolicyCreateRequest → (id : String) → (now : ℕ) → PolicyCall
  activates : (id : String) → (now : ℕ) → PolicyCall
  deletes : (id : String) → PolicyCall

module _ (cfg : OpaConfig) (rego : Rego) (sha256_hex : String → String) (s : Signer) where
  unfoldable pub call : List Policy → PolicyCall → List Policy
  call rows (creates req id now) =
      (create_policy (stored_policies (some s)) cfg rego sha256_hex rows id now req).0
  call rows (activates id now) = (activate_policy (stored_policies (some s)) rows id now).0
  call rows (deletes id) = (delete_policy (stored_policies (some s)) rows id).0

  unfoldable pub calls : List Policy → List PolicyCall → List Policy
  unfolding call
  calls rows [] = rows
  calls rows (c ∷ cs) = calls (call rows c) cs

  new_policy-inactive :
      (id : String) (now : ℕ) (req : PolicyCreateRequest)
      → (new_policy sha256_hex id now req).active ≡ false
  unfolding new_policy
  new_policy-inactive id now req = refl

  created_policy-store : (r : List Policy × PolicyResult) → (created_policy r).0 ≡ r.0
  created_policy-store (rows, policy p) = refl
  created_policy-store (rows, no_policy e) = refl

  -- the rows are left as they are, or are those of the store after the creation
  create_policy-store :
      (rows : List Policy) (id : String) (now : ℕ) (req : PolicyCreateRequest)
      → let rows' =
          (create_policy (stored_policies (some s)) cfg rego sha256_hex rows id now req).0 in
        (rows' ≡ rows) ⊎ (rows' ≡ (create rows (new_policy sha256_hex id now req)).0)
  unfolding create_policy
  create_policy-store rows id now req =
      ground (arith, created_policy-store (create rows (new_policy sha256_hex id now req)))

  create_policy-IsValid :
      (rows : List Policy) (id : String) (now : ℕ) (req : PolicyCreateRequest)
      → IsValid rows
      → IsValid (create_policy (stored_policies (some s)) cfg rego sha256_hex rows id now req).0
  create_policy-IsValid rows id now req valid = elim (create_policy-store rows id now req) [
    | inl same ↦ subst IsValid (sym same) valid
    | inr made ↦ subst IsValid (sym made) (
        create-IsValid rows (new_policy sha256_hex id now req) (new_policy-inactive id now req)
          valid)
  ]

  after_activation-store :
      (id : String) (now : ℕ) (r : List Policy × Option PolicyError)
      → (after_activation (stored_policies (some s)) id now r).0 ≡ r.0
  after_activation-store id now (rows, some e) = refl
  after_activation-store id now (rows, none) = refl

  deleted_policy-store : (r : List Policy × Option PolicyError) → (deleted_policy r).0 ≡ r.0
  deleted_policy-store (rows, none) = refl
  deleted_policy-store (rows, some e) = refl

  call-IsValid : (rows : List Policy) (c : PolicyCall) → IsValid rows → IsValid (call rows c)
  unfolding call delete_policy activate_policy
  call-IsValid rows (creates req id now) valid = create_policy-IsValid rows id now req valid
  call-IsValid rows (activates id now) valid =
      rw (after_activation-store id now (activate (some s) rows id now))
        (activate-IsValid s rows id now valid)
  call-IsValid rows (deletes id) valid =
      rw (deleted_policy-store (delete rows id)) (delete-IsValid rows id valid)

  -- Through any sequence of requests to create, activate and delete policies, whether they succeed or not, every
  -- ID has at most one row and every name at most one active version, if that holds at first.
  pub calls-IsValid :
      (rows : List Policy) (cs : List PolicyCall) → IsValid rows → IsValid (calls rows cs)
  unfolding calls
  calls-IsValid rows [] valid = valid
  calls-IsValid rows (c ∷ cs) valid = calls-IsValid (call rows c) cs (call-IsValid rows c valid)

-- a row with other content, and all else as it was
abbrev pub forged : (Policy → String) → Policy → Policy
forged content p = record p { content = content p }

abbrev pub forged_result : (Policy → String) → PolicyResult → PolicyResult
forged_result content (policy p) = policy (forged content p)
forged_result content (no_policy e) = no_policy e

abbrev map_row : (Policy → Policy) → Option Policy → Option Policy
map_row f none = none
map_row f (some p) = some (f p)

first_forged :
    (content : Policy → String) (name : String) (rows : List Policy)
    → first_row (is_active name) (map (forged content) rows)
      ≡ map_row (forged content) (first_row (is_active name) rows)
unfolding first_row
first_forged content name [] = refl
first_forged content name (q ∷ rows) = ground (arith, first_forged content name rows)

of_row-forged :
    (signer : Option Signer) (content : Policy → String) (o : Option Policy)
    → of_row signer (map_row (forged content) o) ≡ forged_result content (of_row signer o)
unfolding checked
of_row-forged signer content none = refl
of_row-forged none content (some p) = refl
of_row-forged (some s) content (some p) = ground arith

-- Whatever other content is written into the rows of the table, with the hashes and signatures left as they
-- are, a name leads to the other content where it led to the right one before: the signature is over the
-- stored hash, which is not compared with the content.
pub content_unchecked :
    (signer : Option Signer) (content : Policy → String) (rows : List Policy) (name : String)
    → get_by_name signer (map (forged content) rows) name
      ≡ forged_result content (get_by_name signer rows name)
content_unchecked signer content rows name =
    get_by_name_lem signer (map (forged content) rows) name
    ∙ ap (of_row signer) (first_forged content name rows)
    ∙ of_row-forged signer content (first_row (is_active name) rows)
    ∙ sym (ap (forged_result content) (get_by_name_lem signer rows name))
