-- ===== src/Store/Memory/Redeem.antt =====
-- `ConsumeAuthCode`: which flow it finds, and that a code is redeemed once.
use authpilot.Common.{
  ℕ, zero, suc, String, ◌≡◌, ◌≢◌, refl, sym, ap, ◌∙◌, some, [], ◌∷◌, arith, ◌==◌, eq_iff,
  if◌then◌else◌, inl, inr, Bool-cases, ne→==-false,
}
use authpilot.Common.GoMap.{
  GoMap, lookup, insert, lookup-insert, HasUniqueKeys, insert-HasUniqueKeys, Entries,
  Entries-lookup, Entries-self, Entries-weaken,
}
use authpilot.Domain.{Flow}
use authpilot.Store.{Err, not_found, ok, err}
use authpilot.Store.Memory.Flows.{FlowStore, consume_from, consume_auth_code, crud}
use authpilot.Store.Memory.Laws.{IsKeyed}
use mathlib.Core.Path.{subst}

abbrev pub cleared : Flow → Flow
cleared flow = record flow { auth_code = "" }

-- What a redemption that found `f` has done to the map.
pub record IsRedeemed (all : GoMap Flow) (code : String) (t : GoMap Flow) (f : Flow) : Type 0 where
  pub key : String
  pub stored : lookup key all ≡ some f
  pub matches : f.auth_code ≡ code
  pub written : t ≡ insert key (cleared f) all

consume_from_sound :
    (all : GoMap Flow) (code : String) (m t : GoMap Flow) (f : Flow)
    → Entries (λ k v. lookup k all ≡ some v) m
    → consume_from all code m ≡ (t, ok f)
    → IsRedeemed all code t f
unfolding consume_from
consume_from_sound all code [] t f h e = cc (ap (λ p. p.1) e)
consume_from_sound all code ((id, flow) ∷ rest) t f h e =
    elim (Bool-cases (flow.auth_code == code)) [
      | inl hit ↦
          let e' : (insert id (cleared flow) all, ok flow) ≡ (t, ok f) = rw hit at e in
          let same : flow ≡ f = cc (ap (λ p. p.1) e') in
          record {
            key = id;
            stored = h.0 ∙ ap some same;
            matches =
                ap (λ (x : Flow). x.auth_code) (sym same) ∙ (eq_iff flow.auth_code code).0 hit;
            written = sym (ap (λ p. p.0) e') ∙ ap (λ x. insert id (cleared x) all) same;
          }
      | inr miss ↦ consume_from_sound all code rest t f h.1 (rw miss at e)
    ]

consume_from_missing :
    (all : GoMap Flow) (code : String) (m : GoMap Flow)
    → Entries (λ k v. v.auth_code ≢ code) m
    → consume_from all code m ≡ (all, err not_found)
unfolding consume_from
consume_from_missing all code [] h = refl
consume_from_missing all code ((id, flow) ∷ rest) h =
    rw (ne→==-false flow.auth_code code h.0) (consume_from_missing all code rest h.1)

consume_from_complete :
    (all : GoMap Flow) (code : String) (m : GoMap Flow) (k : String) (f : Flow)
    → lookup k m ≡ some f
    → f.auth_code ≡ code
    → (g : Flow) × ((consume_from all code m).1 ≡ ok g)
unfolding consume_from lookup
consume_from_complete all code [] k f h e = cc
consume_from_complete all code ((id, flow) ∷ rest) k f h e =
    elim (Bool-cases (flow.auth_code == code)) [
      | inl hit ↦ (flow, rw hit refl)
      | inr miss ↦ rw miss (
          consume_from_complete all code rest k f
            (ground (arith, eq_iff id k, eq_iff flow.auth_code code)) e)
    ]

abbrev pub IsValid : FlowStore → Type 0
IsValid = IsKeyed (λ (x : Flow). x.id) crud (λ s. s.flows)

-- No two flows hold one code.
abbrev pub HasUniqueCodes : GoMap Flow → Type 0
HasUniqueCodes m =
    (k j : String) (f g : Flow)
    → lookup k m ≡ some f
    → lookup j m ≡ some g
    → f.auth_code ≡ g.auth_code
    → f.auth_code ≢ ""
    → k ≡ j

consume-IsRedeemed :
    (s t : FlowStore) (code : String) (f : Flow)
    → IsValid s
    → consume_auth_code s code ≡ (t, ok f)
    → (code ≢ "") × IsRedeemed s.flows code t.flows f
unfolding consume_auth_code
consume-IsRedeemed s t code f v e = elim (Bool-cases (code == "")) [
  | inl empty ↦ cc (ap (λ p. p.1) (rw empty at e))
  | inr given ↦
      let e' = rw given at e in
      (
        λ bad. cc ((eq_iff code "").1 bad, given),
        consume_from_sound s.flows code s.flows t.flows f (Entries-self s.flows v.unique)
            (ap (λ p. (p.0.flows, p.1)) e'),
      )
]

consume-not_found :
    (s : FlowStore) (code : String)
    → Entries (λ k v. v.auth_code ≢ code) s.flows
    → consume_auth_code s code ≡ (s, err not_found)
unfolding consume_auth_code
consume-not_found s code h = elim (Bool-cases (code == "")) [
  | inl empty ↦ rw empty refl
  | inr given ↦ rw (given, consume_from_missing s.flows code s.flows h) refl
]

pub consume_complete :
    (s : FlowStore) (code k : String) (f : Flow)
    → code ≢ ""
    → lookup k s.flows ≡ some f
    → f.auth_code ≡ code
    → (g : Flow) × ((consume_auth_code s code).1 ≡ ok g)
unfolding consume_auth_code
consume_complete s code k f given stored holds =
    let (g, e) = consume_from_complete s.flows code s.flows k f stored holds in
    (g, rw (ne→==-false code "" given) e)

-- After a redemption no flow holds the code.
spent :
    (all t : GoMap Flow) (code : String) (f : Flow)
    → HasUniqueCodes all
    → code ≢ ""
    → IsRedeemed all code t f
    → (k : String) (v : Flow) → lookup k t ≡ some v
    → v.auth_code ≢ code
spent all t code f u given r k v e bad =
    let at_k : lookup k t ≡ (if r.key == k then some (cleared f) else lookup k all) =
      rw r.written (lookup-insert r.key k (cleared f) all) in
    elim (Bool-cases (r.key == k)) [
      | inl hit ↦
          let same : cleared f ≡ v = cc (rw hit at at_k, e) in
          given (sym bad ∙ ap (λ (x : Flow). x.auth_code) (sym same))
      | inr miss ↦
          let kept : lookup k all ≡ some v = sym (rw miss at at_k) ∙ e in
          let codes : v.auth_code ≡ f.auth_code = bad ∙ sym r.matches in
          let here : k ≡ r.key =
            u k r.key v f kept r.stored codes (λ empty. given (sym bad ∙ empty)) in
          cc (miss, (eq_iff r.key k).1 (sym here))
    ]

insert-unique-keys :
    (all t : GoMap Flow) (code : String) (f : Flow)
    → HasUniqueKeys all
    → IsRedeemed all code t f
    → HasUniqueKeys t
insert-unique-keys all t code f h r = rw r.written (insert-HasUniqueKeys r.key (cleared f) all h)

pub consume-spent :
    (s t : FlowStore) (code : String) (f : Flow)
    → IsValid s
    → HasUniqueCodes s.flows
    → consume_auth_code s code ≡ (t, ok f)
    → consume_auth_code t code ≡ (t, err not_found)
consume-spent s t code f v u e =
    let (given, r) = consume-IsRedeemed s t code f v e in
    consume-not_found t code (
      Entries-weaken _ _ (spent s.flows t.flows code f u given r) t.flows
        (Entries-self t.flows (insert-unique-keys s.flows t.flows code f v.unique r)))

-- `n` requests that race for one code. The lock makes them run one after the other; the result is
-- how many of them were given the flow.
pub winners : ℕ → FlowStore → String → ℕ
winners zero s code = 0
winners (suc n) s code =
    let (t, result) = consume_auth_code s code in
    let rest = winners n t code in elim result [ ok _ ↦ suc rest | err _ ↦ rest ]

winners-none :
    (n : ℕ) (s : FlowStore) (code : String)
    → consume_auth_code s code ≡ (s, err not_found)
    → winners n s code ≡ 0
unfolding winners
winners-none zero s code h = refl
winners-none (suc n) s code h =
    rw (ap (λ p. p.1) h, winners) (rw (ap (λ p. p.0) h) (winners-none n s code h))

-- If a flow holds the code, no two flows share a code, and the map is well formed, then exactly one
-- of any positive number of racing redemptions is given the flow.
pub winners-eq-one :
    (n : ℕ) (s : FlowStore) (code k : String) (f : Flow)
    → IsValid s
    → HasUniqueCodes s.flows
    → code ≢ ""
    → lookup k s.flows ≡ some f
    → f.auth_code ≡ code
    → winners (suc n) s code ≡ 1
unfolding winners
winners-eq-one n s code k f v u given stored holds =
    let (g, won) = consume_complete s code k f given stored holds in
    let t = (consume_auth_code s code).0 in
    let e : consume_auth_code s code ≡ (t, ok g) = λ i. (t, won i) in
    let later = winners-none n t code (consume-spent s t code g v u e) in
    rw (won, winners) (ap suc later)

-- A redemption that succeeds returns the stored flow that holds the code, clears the code of that
-- flow in the store, and changes no other flow.
pub consume_auth_code_lem :
    (s t : FlowStore) (code : String) (f : Flow)
    → IsValid s
    → consume_auth_code s code ≡ (t, ok f)
    → (lookup f.id s.flows ≡ some f)
      × (f.auth_code ≡ code)
      × ((k : String)
          → lookup k t.flows ≡ (if f.id == k then some (cleared f) else lookup k s.flows))
consume_auth_code_lem s t code f v e =
    let (given, r) = consume-IsRedeemed s t code f v e in
    let own : f.id ≡ r.key =
      Entries-lookup (λ k (x : Flow). x.id ≡ k) r.key f s.flows v.own_key r.stored in
    (
      subst (λ x. lookup x s.flows ≡ some f) (sym own) r.stored,
      r.matches,
      λ k.
          subst (λ x. lookup k t.flows ≡ (if x == k then some (cleared f) else lookup k s.flows))
            (sym own) (rw r.written (lookup-insert r.key k (cleared f) s.flows)),
    )

consume_from_refused :
    (all : GoMap Flow) (code : String) (m : GoMap Flow) (e : Err)
    → (consume_from all code m).1 ≡ err e
    → consume_from all code m ≡ (all, err not_found)
unfolding consume_from
consume_from_refused all code [] e h = refl
consume_from_refused all code ((id, flow) ∷ rest) e h = elim (Bool-cases (flow.auth_code == code)) [
  | inl hit ↦ cc (rw hit at h)
  | inr miss ↦ rw miss (consume_from_refused all code rest e (rw miss at h))
]

-- A redemption that fails is answered as not found and changes nothing.
pub consume_refused :
    (s : FlowStore) (code : String) (e : Err)
    → (consume_auth_code s code).1 ≡ err e
    → consume_auth_code s code ≡ (s, err not_found)
unfolding consume_auth_code
consume_refused s code e h = elim (Bool-cases (code == "")) [
  | inl empty ↦ rw empty refl
  | inr given ↦ rw (given, consume_from_refused s.flows code s.flows e (rw given at h)) refl
]
