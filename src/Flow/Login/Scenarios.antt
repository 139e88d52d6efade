-- ===== src/Flow/Login/Scenarios.antt =====
-- What each scenario of a user makes of a login, over any flow store that keeps its promise.
use authpilot.Common.{String, ◌≡◌, refl, Option, ◌==◌, if◌then◌else◌}
use authpilot.Domain.{User, Flow}
use authpilot.Store.{ok, CrudStore, FlowStore, IsCrud}
use authpilot.Flow.{
  mfa_pending, web_authn_pending, complete, error_state, account_locked, requires_mfa, is_web_authn,
}
use authpilot.Flow.Login.{Outcome, accepted, save}
use authpilot.Flow.Login.Safety.{update-read}

-- where a login goes once its user is known, by the user's scenario and MFA method
abbrev pub goes_to : User → String
goes_to user =
    if user.next_flow == account_locked
    then error_state
    else if is_web_authn user.mfa_method
    then web_authn_pending
    else if requires_mfa user.mfa_method
    then mfa_pending
    else complete

module _ {FS US : Type 0} (flows : FlowStore FS) (users : CrudStore US User)
    (view : FS → String → Option Flow) (IsValid : FS → Type 0)
    (laws : IsCrud (λ (f : Flow). f.id) flows.crud view IsValid) (fs : FS) (flow_id : String)
    (f : Flow) (valid : IsValid fs) (read : flows.crud.get_by_id fs flow_id ≡ ok f) where
  pub save-accepted : (g : Flow) → g.id ≡ f.id → (save flows users fs g).1 ≡ accepted g
  unfolding save
  save-accepted g i =
      rw ((update-read flows users view IsValid laws fs flow_id f g valid read i).0, save) refl

  -- an outcome that lets the user in, in the state `state`
  abbrev pub IsPicked : String → String → Outcome → Type 0
  IsPicked user_id state out =
      (out.status ≡ 0) × (out.flow.state ≡ state) × (out.flow.user_id ≡ user_id)
