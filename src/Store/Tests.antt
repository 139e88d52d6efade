-- ===== src/Store/Tests.antt =====
-- The theorems about the stores, at concrete stores.
use authpilot.Common.{
  ==-false→ne, arith, eq_iff, sym, ap, ◌∙◌, Bool-cases, inl, inr, ◌≡◌, ◌≢◌, refl, String, Option,
  none, some, List, [], ◌∷◌, ◌==◌,
}
use authpilot.Common.GoMap.{lookup}
use authpilot.Common.Prefix.{HasNoColon}
use authpilot.Domain.{Flow, zero_flow, AuditEvent, zero_audit_event, ScimEvent, zero_scim_event}
use authpilot.Store.{err, not_found, IsCrud}
use authpilot.Store.Memory.Flows.{FlowStore, consume_auth_code, crud}
use authpilot.Store.Memory.Crud.{flows-IsCrud}
use authpilot.Store.Memory.Redeem.{IsValid, HasUniqueCodes, winners, winners-eq-one}
use authpilot.Store.Memory.Ring.{AuditFilter, passes, new_audit_store}
use authpilot.Store.Tenanted.{flow_entity}
use authpilot.Store.Tenanted as Tenanted
use authpilot.Store.Tenanted.Laws.{tenant_view, tenanted-IsCrud}
use authpilot.Store.Tenanted.Isolation.{sees, tenants_isolated}
use authpilot.Store.Tenanted.Codes.{consume, foreign_code}
use authpilot.Store.Tenanted.Audit.{
  audit_store, memory_audit, append_each, named, shown_to, list-append_each,
}

abbrev first : Flow
first = record zero_flow { id = "f1"; auth_code = "abc" }

abbrev second : Flow
second = record zero_flow { id = "f2" }

abbrev two_flows : FlowStore
two_flows = record { flows = ("f1", first) ∷ ("f2", second) ∷ [] }

two_flows-IsValid : IsValid two_flows
unfolding lookup
two_flows-IsValid = record { unique = (refl, (refl, tt)); own_key = (refl, (refl, tt)) }

abbrev code_of : Option Flow → String
code_of none = ""
code_of (some f) = f.auth_code

stored_codes :
    (k : String) (f : Flow) → lookup k two_flows.flows ≡ some f → f.auth_code ≢ "" → "f1" ≡ k
unfolding lookup
stored_codes k f e given = elim (Bool-cases ("f1" == k)) [
  | inl hit ↦ (eq_iff "f1" k).0 hit
  | inr miss ↦ elim (Bool-cases ("f2" == k)) [
    | inl at_second ↦
        let same : some second ≡ some f = rw (miss, at_second) at e in
        absurd (given (ap (λ (x : Option Flow). code_of x) (sym same)))
    | inr nowhere ↦ cc (rw (miss, nowhere) at e)
  ]
]

two_flows-HasUniqueCodes : HasUniqueCodes two_flows.flows
two_flows-HasUniqueCodes k j f g ek ej same given =
    sym (stored_codes k f ek given) ∙ stored_codes j g ej (λ e. given (same ∙ e))

abc-given : first.auth_code ≢ ""
abc-given = ==-false→ne "abc" "" refl

winners-eq-one_example : winners 3 two_flows "abc" ≡ 1
unfolding lookup
winners-eq-one_example =
    winners-eq-one 2 two_flows "abc" "f1" first two_flows-IsValid two_flows-HasUniqueCodes abc-given
      refl refl

abbrev entry : String → ScimEvent
entry id = record zero_scim_event { id = id }

abbrev event : String → AuditEvent
event id = record zero_audit_event { id = id; event_type = "login" }

abbrev logins : AuditFilter
logins = record { event_type = "login"; since = 0 }

tenanted-IsCrud_example :
    IsCrud
      (λ (f : Flow). f.id)
      (Tenanted.crud flow_entity crud "acme")
      (tenant_view flow_entity crud "acme" _ _ flows-IsCrud)
      IsValid
tenanted-IsCrud_example = tenanted-IsCrud flow_entity crud "acme" _ _ flows-IsCrud

acme-HasNoColon : HasNoColon "acme"
acme-HasNoColon = ground arith

globex-HasNoColon : HasNoColon "globex"
globex-HasNoColon = ground arith

abbrev acme : String
acme = "acme"

acme-globex : acme ≢ "globex"
acme-globex = ==-false→ne "acme" "globex" refl

tenants_isolated_example :
    (sees flow_entity crud _ _ flows-IsCrud "globex"
        (Tenanted.create flow_entity crud "acme" two_flows first).0
        "f1"
      ≡ sees flow_entity crud _ _ flows-IsCrud "globex" two_flows "f1")
    × (sees flow_entity crud _ _ flows-IsCrud "globex"
          (Tenanted.update flow_entity crud "acme" two_flows first).0
          "f1"
        ≡ sees flow_entity crud _ _ flows-IsCrud "globex" two_flows "f1")
    × (sees flow_entity crud _ _ flows-IsCrud "globex"
          (Tenanted.delete flow_entity crud "acme" two_flows "f2").0
          "f1"
        ≡ sees flow_entity crud _ _ flows-IsCrud "globex" two_flows "f1")
tenants_isolated_example =
    tenants_isolated flow_entity crud _ _ flows-IsCrud "acme" "globex" acme-HasNoColon
      globex-HasNoColon acme-globex two_flows first "f2" "f1"

abbrev shared : FlowStore
shared = record {
  flows = ("globex::f1", record zero_flow { id = "globex::f1"; auth_code = "abc" }) ∷ [];
}

shared-IsValid : IsValid shared
unfolding lookup
shared-IsValid = record { unique = (refl, tt); own_key = (refl, tt) }

shared-HasUniqueCodes : HasUniqueCodes shared.flows
unfolding lookup
shared-HasUniqueCodes k j f g ek ej same given = sym (only k f ek) ∙ only j g ej
  where
    only : (k : String) (f : Flow) → lookup k shared.flows ≡ some f → "globex::f1" ≡ k
    only k f e = elim (Bool-cases ("globex::f1" == k)) [
      | inl hit ↦ (eq_iff "globex::f1" k).0 hit
      | inr miss ↦ cc (rw miss at e)
    ]

foreign_code_example :
    (consume "acme" shared "abc" ≡ ((consume_auth_code shared "abc").0, err not_found))
    × (consume "globex" (consume_auth_code shared "abc").0 "abc"
        ≡ ((consume_auth_code shared "abc").0, err not_found))
unfolding consume_auth_code Tenanted.has_prefix
foreign_code_example =
    foreign_code "acme" "globex" "abc" shared _ _ shared-IsValid shared-HasUniqueCodes refl refl

abbrev two_tenants : List (String × AuditEvent)
two_tenants = ("acme", event "a") ∷ ("globex", event "b") ∷ ("acme", event "c") ∷ []

list-append_each_example :
    (audit_store memory_audit "acme").list (append_each (new_audit_store 2) two_tenants) logins
    ≡ some (named "acme" (event "c") ∷ [])
unfolding passes shown_to
list-append_each_example = list-append_each 2 "acme" logins two_tenants

abbrev dated : FlowStore
dated = record {
  flows =
      ("f1", record zero_flow { id = "f1"; expires_at = 5 })
      ∷ ("f2", record zero_flow { id = "f2"; expires_at = 9 })
      ∷ [];
}

dated-IsValid : IsValid dated
unfolding lookup
dated-IsValid = record { unique = (refl, (refl, tt)); own_key = (refl, (refl, tt)) }
