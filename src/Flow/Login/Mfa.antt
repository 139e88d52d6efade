-- ===== src/Flow/Login/Mfa.antt =====
-- The second factor of a login under the scenarios `mfa_fail` and `slow_mfa`, over any flow store that
-- keeps its promise.
use authpilot.Common.{
  ℕ, ◌+◌, ◌-◌, String, ◌≡◌, ◌≢◌, refl, ap, ◌∙◌, true, false, ◌&&◌, Option, arith, ◌==◌,
  if◌then◌else◌, Bool-cases, inl, inr, ltb, eqb, ne→==-false,
}
use authpilot.Common.Text.{trim_space}
use authpilot.Domain.{User, Flow}
use authpilot.Store.{ok, CrudStore, FlowStore, IsCrud}
use authpilot.Flow.{
  mfa_pending, mfa_approved, mfa_fail, slow_mfa, can_transition, normalize_scenario,
}
use authpilot.Flow.Login.{
  Outcome, slow_delay, save_then, use_up, verify_pending, apply_verify_mfa, approve_pending,
  approve_or_deny_flow,
}
use authpilot.Flow.Login.Effects.{save-store}
use authpilot.Flow.Login.Safety.{update-read}
use authpilot.Flow.Login.Scenarios.{save-accepted}

pub approved : can_transition mfa_pending mfa_approved ≡ true
unfolding can_transition
approved = refl

mfa_fail-kept : (normalize_scenario mfa_fail == mfa_fail) ≡ true
unfolding normalize_scenario
mfa_fail-kept = refl

slow_mfa-kept : (normalize_scenario slow_mfa == slow_mfa) ≡ true
unfolding normalize_scenario
slow_mfa-kept = refl

module _ {FS US : Type 0} (flows : FlowStore FS) (users : CrudStore US User) where
  use_up-out :
      (r : FS × Outcome) (scenario : String) (us : US) → (use_up flows users r scenario us).2 ≡ r.1
  unfolding use_up
  use_up-out r scenario us = refl

  pub use_up-store :
      (r : FS × Outcome) (scenario : String) (us : US) → (use_up flows users r scenario us).0 ≡ r.0
  unfolding use_up
  use_up-store r scenario us = refl

  pub save_then-done :
      (fs : FS) (g : Flow) (o : Outcome)
      → (flows.crud.update fs g).1 ≡ ok g
      → save_then flows users fs g o ≡ ((flows.crud.update fs g).0, o)
  unfolding save_then
  save_then-done fs g o done = rw (done, save_then) refl

module _ {FS US : Type 0} (flows : FlowStore FS) (users : CrudStore US User)
    (view : FS → String → Option Flow) (IsValid : FS → Type 0)
    (laws : IsCrud (λ (f : Flow). f.id) flows.crud view IsValid) (fs : FS) (flow_id : String)
    (f : Flow) (valid : IsValid fs) (read : flows.crud.get_by_id fs flow_id ≡ ok f)
    (waits : f.state ≡ mfa_pending) where
  -- a code for a flow that waits goes to the check of the code
  pub verify-pending :
      (us : US) (code : String)
      → flow_id ≢ ""
      → apply_verify_mfa flows users fs us flow_id code "" ≡ verify_pending flows users fs us f code
  unfolding apply_verify_mfa
  verify-pending us code hf =
      rw (ne→==-false flow_id "" hf, read, apply_verify_mfa, ap (λ x. x == mfa_pending) waits) refl

  verify_pending-first :
      (us : US) (code : String)
      → f.scenario ≡ mfa_fail
      → f.attempts ≡ 0
      → ((verify_pending flows users fs us f code).2.status ≡ 401)
        × ((verify_pending flows users fs us f code).0
            ≡ (flows.crud.update fs (record f { attempts = f.attempts + 1 })).0)
        × ((verify_pending flows users fs us f code).1 ≡ us)
  unfolding verify_pending
  verify_pending-first us code fails first =
      let fails_here : (normalize_scenario f.scenario == mfa_fail) ≡ true =
        ap (λ x. normalize_scenario x == mfa_fail) fails ∙ mfa_fail-kept in
      let once : eqb (f.attempts + 1) 1 ≡ true = ground arith in
      let (done, _) =
        update-read flows users view IsValid laws fs flow_id f
          (record f { attempts = f.attempts + 1 }) valid read refl in
      rw (fails_here, once, save_then-done flows users fs _ _ done) (refl, refl, refl)

  verify_pending-later :
      (us : US) (code : String)
      → trim_space code ≢ ""
      → ((normalize_scenario f.scenario == mfa_fail) && eqb (f.attempts + 1) 1) ≡ false
      → ((verify_pending flows users fs us f code).2.status ≡ 0)
        × ((verify_pending flows users fs us f code).2.flow.state ≡ mfa_approved)
  unfolding verify_pending
  verify_pending-later us code given later =
      let coded = ne→==-false (trim_space code) "" given in
      let may_approve : can_transition f.state mfa_approved ≡ true =
        ap (λ x. can_transition x mfa_approved) waits ∙ approved in
      let saved =
        save-accepted flows users view IsValid laws fs flow_id f valid read
          (record f { attempts = f.attempts + 1; state = mfa_approved }) refl in
      rw (later, coded, may_approve, use_up-out, saved) (refl, refl)

  -- `approveOrDenyFlow` with `approve` on a flow that waits under `slow_mfa`: before ten seconds have
  -- passed since the flow began the answer is 202 and the stored flow is as it was; from then on the
  -- answer is a success and the stored flow is approved.
  pub approve_or_deny_flow-slow :
      (now : ℕ) (us : US)
      → f.scenario ≡ slow_mfa
      → let early = ltb (now - f.created_at) slow_delay in
        let (fs', us', out) = approve_or_deny_flow flows users now fs us flow_id true "" in
        (out.status ≡ (if early then 202 else 0))
        × (flows.crud.get_by_id fs' flow_id
            ≡ ok (if early then f else record f { state = mfa_approved }))
  unfolding approve_or_deny_flow approve_pending
  approve_or_deny_flow-slow now us slow =
      let waits_here : (f.state == mfa_pending) ≡ true = ap (λ x. x == mfa_pending) waits in
      let slow_here : (normalize_scenario f.scenario == slow_mfa) ≡ true =
        ap (λ x. normalize_scenario x == slow_mfa) slow ∙ slow_mfa-kept in
      let may_approve : can_transition f.state mfa_approved ≡ true =
        ap (λ x. can_transition x mfa_approved) waits ∙ approved in
      let done = record f { state = mfa_approved } in
      let saved = save-accepted flows users view IsValid laws fs flow_id f valid read done refl in
      let (_, stored) =
        update-read flows users view IsValid laws fs flow_id f done valid read refl in
      elim (Bool-cases (ltb (now - f.created_at) slow_delay)) [
        | inl early ↦ rw (read, approve_or_deny_flow, waits_here, slow_here, early) (refl, read)
        | inr due ↦
            rw
              (
                read, approve_or_deny_flow, waits_here, slow_here, due, may_approve, use_up-out,
                use_up-store, saved,
              )
              (
                refl,
                ap (λ x. flows.crud.get_by_id x flow_id) (save-store flows users fs done) ∙ stored,
              )
      ]

module _ {FS US : Type 0} (flows : FlowStore FS) (users : CrudStore US User)
    (view : FS → String → Option Flow) (IsValid : FS → Type 0)
    (laws : IsCrud (λ (f : Flow). f.id) flows.crud view IsValid) where
  -- A flow that waits under the scenario `mfa_fail` and has had no attempt refuses the first code,
  -- whatever it is, with 401, and the next code that is not blank approves it.
  pub apply_verify_mfa-fails_once :
      (fs : FS) (us : US) (flow_id first_code code : String) (f : Flow)
      → IsValid fs
      → flows.crud.get_by_id fs flow_id ≡ ok f
      → f.state ≡ mfa_pending
      → flow_id ≢ ""
      → trim_space code ≢ ""
      → f.scenario ≡ mfa_fail
      → f.attempts ≡ 0
      → let (fs₁, us₁, out₁) = apply_verify_mfa flows users fs us flow_id first_code "" in
        let (fs₂, us₂, out₂) = apply_verify_mfa flows users fs₁ us₁ flow_id code "" in
        (out₁.status ≡ 401) × (out₂.status ≡ 0) × (out₂.flow.state ≡ mfa_approved)
  apply_verify_mfa-fails_once fs us flow_id first_code code f valid read waits hf given fails
        first =
      let f₁ = record f { attempts = f.attempts + 1 } in
      let fs₁ = (flows.crud.update fs f₁).0 in
      let (_, read₁) = update-read flows users view IsValid laws fs flow_id f f₁ valid read refl in
      let valid₁ = laws.update-IsValid fs f₁ valid in
      let (refuses, stored, kept) =
        verify_pending-first flows users view IsValid laws fs flow_id f valid read waits us
          first_code fails first in
      let later : ((normalize_scenario f.scenario == mfa_fail) && eqb (f.attempts + 1 + 1) 1)
          ≡ false =
        ground arith in
      let (status, state) =
        verify_pending-later flows users view IsValid laws fs₁ flow_id f₁ valid₁ read₁ waits us code
          given later in
      rw
        (
          verify-pending flows users view IsValid laws fs flow_id f valid read waits us first_code
              hf,
          stored,
          kept,
          verify-pending flows users view IsValid laws fs₁ flow_id f₁ valid₁ read₁ waits us code hf,
        )
        (refuses, status, state)
