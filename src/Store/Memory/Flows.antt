-- ===== src/Store/Memory/Flows.antt =====
-- server/internal/store/memory/flows.go: flows, with the redemption of auth codes and the removal of expired flows.
use authpilot.Common.{
  ℕ, String, Bool, Option, none, some, List, [], ◌∷◌, ◌==◌, if◌then◌else◌, count_if, sort_by, ltb,
  count_if,
}
use authpilot.Common.GoMap.{GoMap, lookup, insert, delete as delete_key, drop_if, values}
use authpilot.Domain.{Flow}
use authpilot.Store.{Err, not_found, Result, ok, err, CrudStore, FlowStore as StoreInterface}

pub record FlowStore : Type 0 where
  pub flows : GoMap Flow

-- `NewFlowStore`
abbrev pub new : FlowStore
new = record { flows = [] }

unfoldable pub create : FlowStore → Flow → FlowStore × Result Flow
create s flow = (record s { flows = insert flow.id flow s.flows }, ok flow)

unfoldable pub get_by_id : FlowStore → String → Result Flow
get_by_id s id = elim (lookup id s.flows) [ none ↦ err not_found | some flow ↦ ok flow ]

unfoldable pub list : FlowStore → Result (List Flow)
list s = ok (sort_by (λ x. x.id) (values s.flows))

unfoldable pub update : FlowStore → Flow → FlowStore × Result Flow
update s flow = elim (lookup flow.id s.flows) [
  | none ↦ (s, err not_found)
  | some _ ↦ (record s { flows = insert flow.id flow s.flows }, ok flow)
]

unfoldable pub delete : FlowStore → String → FlowStore × Option Err
delete s id = elim (lookup id s.flows) [
  | none ↦ (s, some not_found)
  | some _ ↦ (record s { flows = delete_key id s.flows }, none)
]

-- The loop of `ConsumeAuthCode`: the first flow in the order of the visit that holds the code. It
-- writes the flow back under its key with the code cleared, and returns the flow as it was.
unfoldable pub consume_from : GoMap Flow → String → GoMap Flow → GoMap Flow × Result Flow
consume_from all code [] = (all, err not_found)
consume_from all code ((id, flow) ∷ rest) =
    let later = consume_from all code rest in
    if flow.auth_code == code
    then (insert id (record flow { auth_code = "" }) all, ok flow)
    else later

unfoldable pub consume_auth_code : FlowStore → String → FlowStore × Result Flow
unfolding consume_from
consume_auth_code s code =
    if code == ""
    then (s, err not_found)
    else (let (flows, result) = consume_from s.flows code s.flows in
        (record s { flows = flows }, result))

unfoldable pub is_expired : ℕ → Flow → Bool
is_expired now flow = ltb flow.expires_at now

unfoldable pub delete_expired : FlowStore → ℕ → FlowStore × Result ℕ
unfolding is_expired
delete_expired s now = (
  record s { flows = drop_if (is_expired now) s.flows },
  ok (count_if (is_expired now) (values s.flows)),
)

-- the methods, as the interface that clients use
abbrev pub crud : CrudStore FlowStore Flow
crud = record {
  create = create;
  get_by_id = get_by_id;
  list = list;
  update = update;
  delete = delete;
}

abbrev pub flow_store : StoreInterface FlowStore
flow_store = record {
  crud = crud;
  delete_expired = delete_expired;
  consume_auth_code = consume_auth_code;
}
