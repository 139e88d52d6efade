-- ===== src/Store/Sqlite/PolicyTests.antt =====
-- The theorems about stored policies, at two versions of one policy.
use mathlib.Core.Path.{subst}
use authpilot.Common.{
  ◌≤◌, String, ◌≡◌, ◌≢◌, refl, true, some, List, [], ◌∷◌, ◌==◌, map, count_if, arith, eq_iff,
  Bool-cases, inl, inr,
}
use authpilot.Config.{defaults}
use authpilot.Opa.{Rego, evaluated}
use authpilot.Opa.Policies.{PolicyCreateRequest, create_policy}
use authpilot.Domain.{Policy, zero_policy}
use authpilot.Store.Sqlite.Policies.{Signer, policy, first_row, get_by_name, activate, checked}
use authpilot.Store.Sqlite.PolicyLaws.{IsValid, has_id, activate_lem}
use authpilot.Store.Sqlite.PolicyCalls.{
  PolicyCall, creates, activates, deletes, calls, calls-IsValid, forged, forged_result,
  content_unchecked,
}

abbrev first_version : Policy
first_version = record zero_policy {
  id = "p1";
  name = "authz";
  version = "1";
  content = "allow";
  content_hash = "h1";
  active = true;
  signature = "h1";
}

abbrev second_version : Policy
second_version = record zero_policy {
  id = "p2";
  name = "authz";
  version = "2";
  content_hash = "h2";
}

abbrev two_versions : List Policy
two_versions = first_version ∷ second_version ∷ []

-- a signer whose signature of a text is the text
abbrev plain : Signer
plain = record { sign = λ text. text; verify = λ text signature. text == signature }

plain_accepts : (text : String) → plain.verify text (plain.sign text) ≡ true
plain_accepts text = ground (arith, eq_iff text text)

two_versions-IsValid : IsValid two_versions
two_versions-IsValid = record {
  unique = λ id. elim (Bool-cases ("p1" == id)) [
    | inl hit ↦
        subst (λ z. count_if (has_id z) two_versions ≤ 1) ((eq_iff "p1" id).0 hit) (omega arith)
    | inr miss ↦ rw miss (ground arith)
  ];
  one_active = λ name. ground arith;
}

abbrev second_active : List Policy
second_active = (activate (some plain) two_versions "p2" 9).0

activate_lem_example :
    IsValid second_active
    × (get_by_name (some plain) second_active "authz"
        ≡ policy (record second_version { active = true; activated_at = some 9; signature = "h2" }))
    × ((other : String)
        → other ≢ "authz"
        → get_by_name (some plain) second_active other
          ≡ get_by_name (some plain) two_versions other)
unfolding first_row
activate_lem_example =
    activate_lem plain two_versions "p2" 9 second_version plain_accepts two_versions-IsValid refl

-- a policy engine that compiles everything
abbrev compiles : Rego
compiles compile_dl eval_dl query opts = evaluated [] [] 3

abbrev version : String → PolicyCreateRequest
version v = record { name = "authz"; version = v; content = "allow" }

abbrev requests : List PolicyCall
requests =
    creates (version "1") "p1" 1
    ∷ activates "p1" 2
    ∷ creates (version "2") "p2" 3
    ∷ activates "p2" 9
    ∷ deletes "p1"
    ∷ []

calls-IsValid_example : IsValid (calls defaults.opa compiles (λ content. content) plain [] requests)
calls-IsValid_example =
    calls-IsValid defaults.opa compiles (λ content. content) plain [] requests
      (record { unique = λ id. ground arith; one_active = λ name. ground arith })

-- the second version has taken the place of the first
one_version_left :
    map (λ p. p.id) (calls defaults.opa compiles (λ content. content) plain [] requests) ≡ "p2" ∷ []
unfolding calls create_policy authpilot.Opa.Policies.delete_policy
    authpilot.Store.Sqlite.Policies.delete authpilot.Opa.Policies.activate_policy activate
    authpilot.Opa.eval authpilot.Store.Sqlite.Policies.create
one_version_left = refl

-- the content is replaced, and the name leads to the new content
content_unchecked_example :
    get_by_name (some plain) (map (forged (λ p. "deny := false")) two_versions) "authz"
    ≡ forged_result (λ p. "deny := false") (get_by_name (some plain) two_versions "authz")
content_unchecked_example =
    content_unchecked (some plain) (λ p. "deny := false") two_versions "authz"

forged_is_served :
    get_by_name (some plain) (map (forged (λ p. "deny := false")) two_versions) "authz"
    ≡ policy (record first_version { content = "deny := false" })
unfolding get_by_name first_row checked
forged_is_served = refl
