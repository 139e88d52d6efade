-- ===== src/Store/Tenanted/Codes.antt =====
-- server/internal/store/tenanted: auth codes over the in-memory store that the tenants share.
use authpilot.Common.{String, ◌≡◌, refl, sym, ap, inl, inr, Bool-cases, ◌∙◌, true, false}
use authpilot.Domain.{Flow}
use authpilot.Store.{not_found, Result, ok, err, Result-cases}
use authpilot.Store.Memory.Flows as Memory
use authpilot.Store.Memory.Redeem.{IsValid, HasUniqueCodes, consume-spent}
use authpilot.Store.Tenanted.{has_prefix, strip_prefix, flow_entity, checked, flow_store}

-- the flows of a tenant in the in-memory store
abbrev pub consume : String → Memory.FlowStore → String → Memory.FlowStore × Result Flow
consume tenant_id = (flow_store Memory.flow_store tenant_id).consume_auth_code

-- what the tenant makes of what the shared store answers
consume-eq :
    (t code : String) (s s' : Memory.FlowStore) (r : Result Flow)
    → Memory.consume_auth_code s code ≡ (s', r)
    → consume t s code ≡ (s', checked flow_entity t r)
unfolding flow_store
consume-eq t code s s' r e = rw e refl

-- If an auth code belongs to a flow of another tenant, its redemption by the tenant `t` is answered as
-- not found, and so is every redemption after it, that by the flow's own tenant included, where the
-- shared store is well formed and no two flows share a code.
pub foreign_code :
    (t u code : String) (s s' : Memory.FlowStore) (f : Flow)
    → IsValid s
    → HasUniqueCodes s.flows
    → Memory.consume_auth_code s code ≡ (s', ok f)
    → has_prefix t f.id ≡ false
    → (consume t s code ≡ (s', err not_found)) × (consume u s' code ≡ (s', err not_found))
unfolding checked
foreign_code t u code s s' f v unique e foreign = (
  consume-eq t code s s' _ e ∙ rw foreign refl,
  consume-eq u code s' s' _ (consume-spent s s' code f v unique e),
)

-- A tenant that is given a flow for an auth code is given one of its own, under the name it knows it
-- by: the shared store gave out that flow with the tenant's prefix.
pub own_code :
    (t code : String) (s : Memory.FlowStore) (f : Flow)
    → (consume t s code).1 ≡ ok f
    → (g : Flow) × ((Memory.consume_auth_code s code).1 ≡ ok g)
      × (has_prefix t g.id ≡ true)
      × (f.id ≡ strip_prefix t g.id)
unfolding flow_store checked
own_code t code s f e = elim (Result-cases (Memory.consume_auth_code s code).1) [
  | inr (x, failed) ↦ cc (rw failed at e)
  | inl (g, given) ↦ elim (Bool-cases (has_prefix t g.id)) [
    | inl mine ↦ let same = rw (given, mine) at e in (g, given, mine, ap id_of (sym same))
    | inr other ↦ cc (rw (given, other) at e)
  ]
]
  where
    id_of : Result Flow → String
    id_of (ok f) = f.id
    id_of (err e) = ""
