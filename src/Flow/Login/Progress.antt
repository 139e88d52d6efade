-- ===== src/Flow/Login/Progress.antt =====
-- A login that waits for its second factor can be brought to its end, over any flow store that keeps its
-- promise.
use mathlib.Core.Path.{subst}
use authpilot.Common.{
  ℕ, ◌+◌, String, ◌≡◌, ◌≢◌, refl, sym, ap, ◌∙◌, true, false, ◌&&◌, Option, arith, ◌==◌, Bool-cases,
  inl, inr, eqb, ne→==-false, if◌then◌else◌,
}
use authpilot.Common.Text.{trim_space}
use authpilot.Domain.{User, Flow}
use authpilot.Store.{ok, CrudStore, FlowStore, IsCrud}
use authpilot.Flow.{
  mfa_pending, mfa_approved, mfa_fail, complete, can_transition, normalize_scenario,
}
use authpilot.Flow.Login.{
  mark_terminal, verify_pending, apply_verify_mfa, get_and_auto_advance_flow, move_to_complete,
  login_mfa,
}
use authpilot.Flow.Login.Effects.{save-store, mark_terminal-keeps}
use authpilot.Flow.Login.Safety.{update-read}
use authpilot.Flow.Login.Mfa.{approved, verify-pending, use_up-store, save_then-done}

completes : can_transition mfa_approved complete ≡ true
unfolding can_transition
completes = refl

module _ {FS US : Type 0} (flows : FlowStore FS) (users : CrudStore US User)
    (view : FS → String → Option Flow) (IsValid : FS → Type 0)
    (laws : IsCrud (λ (f : Flow). f.id) flows.crud view IsValid) where
  -- the page of the second factor shows the login as complete and stores it so
  abbrev Ends : String → ℕ → ℕ → FS → Type 0
  Ends flow_id now later fs =
      let (fs', shown) = login_mfa flows users now later fs flow_id in
      (done : Flow) × (done.state ≡ complete)
      × (flows.crud.get_by_id fs' flow_id ≡ ok done)
      × (shown ≡ ok done)

  module _ (fs : FS) (flow_id : String) (f : Flow) (valid : IsValid fs)
      (read : flows.crud.get_by_id fs flow_id ≡ ok f) where
    auto_advance-approved :
        (now : ℕ)
        → f.state ≡ mfa_approved
        → get_and_auto_advance_flow flows users now fs flow_id ≡ (fs, ok f)
    unfolding get_and_auto_advance_flow
    auto_advance-approved now is =
        rw (read, get_and_auto_advance_flow, ap (λ x. x == mfa_pending) is) refl

    move_to_complete-approved :
        (later : ℕ)
        → f.state ≡ mfa_approved
        → let done = mark_terminal later (record f { state = complete }) in
          move_to_complete flows users later fs f ≡ ((flows.crud.update fs done).0, done, true)
    unfolding move_to_complete
    move_to_complete-approved later is =
        let done = mark_terminal later (record f { state = complete }) in
        let (kept_id, kept_state) =
          mark_terminal-keeps flows users later (record f { state = complete }) in
        let may : can_transition f.state complete ≡ true =
          ap (λ x. can_transition x complete) is ∙ completes in
        let (written, there) =
          update-read flows users view IsValid laws fs flow_id f done valid read kept_id in
        rw (may, move_to_complete, written) refl

    -- the page of the second factor ends a login that is approved
    login_mfa-complete :
        (now later : ℕ)
        → f.state ≡ mfa_approved
        → let done = mark_terminal later (record f { state = complete }) in
          let (fs', shown) = login_mfa flows users now later fs flow_id in
          (flows.crud.get_by_id fs' flow_id ≡ ok done) × (shown ≡ ok done)
    unfolding login_mfa
    login_mfa-complete now later is =
        let done = mark_terminal later (record f { state = complete }) in
        let (kept_id, kept_state) =
          mark_terminal-keeps flows users later (record f { state = complete }) in
        let (written, there) =
          update-read flows users view IsValid laws fs flow_id f done valid read kept_id in
        rw
          (
            login_mfa,
            auto_advance-approved now is,
            ap (λ x. x == mfa_approved) is,
            ap (λ r. r.0) (auto_advance-approved now is),
            move_to_complete-approved later is,
          )
          (there, refl)

    -- a code that is not blank approves, but for the first one under the scenario that refuses it
    verify_pending-store :
        (us : US) (code : String)
        → f.state ≡ mfa_pending
        → trim_space code ≢ ""
        → let fs' = (verify_pending flows users fs us f code).0 in
          let refuses = (normalize_scenario f.scenario == mfa_fail) && eqb (f.attempts + 1) 1 in
          let next = record f {
            attempts = f.attempts + 1;
            state = if refuses then f.state else mfa_approved;
          } in
          IsValid fs' × (flows.crud.get_by_id fs' flow_id ≡ ok next)
    unfolding verify_pending
    verify_pending-store us code waits given =
        let refused = record f { attempts = f.attempts + 1 } in
        let passed = record f { attempts = f.attempts + 1; state = mfa_approved } in
        let coded = ne→==-false (trim_space code) "" given in
        let may : can_transition f.state mfa_approved ≡ true =
          ap (λ x. can_transition x mfa_approved) waits ∙ approved in
        let (written, there) =
          update-read flows users view IsValid laws fs flow_id f refused valid read refl in
        let (_, there') =
          update-read flows users view IsValid laws fs flow_id f passed valid read refl in
        elim (Bool-cases ((normalize_scenario f.scenario == mfa_fail) && eqb (f.attempts + 1) 1)) [
          | inl first ↦
              rw (first, save_then-done flows users fs refused _ written)
                (laws.update-IsValid fs refused valid, there)
          | inr later ↦
              rw
                (
                  later,
                  coded,
                  may,
                  use_up-store flows users _ _ us,
                  save-store flows users fs passed,
                )
                (laws.update-IsValid fs passed valid, there')
        ]

    apply_verify_mfa-store :
        (us : US) (code : String)
        → flow_id ≢ ""
        → f.state ≡ mfa_pending
        → trim_space code ≢ ""
        → let fs' = (apply_verify_mfa flows users fs us flow_id code "").0 in
          let refuses = (normalize_scenario f.scenario == mfa_fail) && eqb (f.attempts + 1) 1 in
          let next = record f {
            attempts = f.attempts + 1;
            state = if refuses then f.state else mfa_approved;
          } in
          IsValid fs' × (flows.crud.get_by_id fs' flow_id ≡ ok next)
    apply_verify_mfa-store us code named waits given =
        rw
          (verify-pending flows users view IsValid laws fs flow_id f valid read waits us code named)
          (verify_pending-store us code waits given)

    -- a code for a login that is approved changes nothing
    apply_verify_mfa-approved :
        (us : US) (code : String)
        → flow_id ≢ ""
        → f.state ≡ mfa_approved
        → (apply_verify_mfa flows users fs us flow_id code "").0 ≡ fs
    unfolding apply_verify_mfa
    apply_verify_mfa-approved us code named is =
        rw (ne→==-false flow_id "" named, read, apply_verify_mfa, ap (λ x. x == mfa_pending) is)
          refl

  approved-Ends :
      (fs : FS) (flow_id : String) (f : Flow) (now later : ℕ)
      → IsValid fs
      → flows.crud.get_by_id fs flow_id ≡ ok f
      → f.state ≡ mfa_approved
      → Ends flow_id now later fs
  approved-Ends fs flow_id f now later valid read is =
      let done = mark_terminal later (record f { state = complete }) in
      let (stored, shown) = login_mfa-complete fs flow_id f valid read now later is in
      let (kept_id, kept_state) =
        mark_terminal-keeps flows users later (record f { state = complete }) in
      (done, kept_state, stored, shown)

  -- A login that waits for its second factor is brought to its end by a code that is not blank, given twice,
  -- and a look at the page of the second factor, whatever the scenario of the user, the number of attempts
  -- and the times are: the page shows the login as complete, and it is stored so.
  pub apply_verify_mfa-complete :
      (fs : FS) (us : US) (flow_id code : String) (f : Flow) (now later : ℕ)
      → IsValid fs
      → flows.crud.get_by_id fs flow_id ≡ ok f
      → f.state ≡ mfa_pending
      → flow_id ≢ ""
      → trim_space code ≢ ""
      → let (fs₁, us₁, out₁) = apply_verify_mfa flows users fs us flow_id code "" in
        let (fs₂, us₂, out₂) = apply_verify_mfa flows users fs₁ us₁ flow_id code "" in
        let (fs₃, shown) = login_mfa flows users now later fs₂ flow_id in
        (done : Flow) × (done.state ≡ complete)
        × (flows.crud.get_by_id fs₃ flow_id ≡ ok done)
        × (shown ≡ ok done)
  apply_verify_mfa-complete fs us flow_id code f now later valid read waits named given =
      let refuses = (normalize_scenario f.scenario == mfa_fail) && eqb (f.attempts + 1) 1 in
      let (fs₁, us₁, out₁) = apply_verify_mfa flows users fs us flow_id code "" in
      let (valid₁, read₁) =
        apply_verify_mfa-store fs flow_id f valid read us code named waits given in
      let f₁ = record f {
        attempts = f.attempts + 1;
        state = if refuses then f.state else mfa_approved;
      } in
      elim (Bool-cases refuses) [
        | inl first ↦
            let waits₁ : f₁.state ≡ mfa_pending =
              ap (λ b. if b then f.state else mfa_approved) first ∙ waits in
            let (valid₂, read₂) =
              apply_verify_mfa-store fs₁ flow_id f₁ valid₁ read₁ us₁ code named waits₁ given in
            let again : ((normalize_scenario f.scenario == mfa_fail) && eqb (f.attempts + 1 + 1) 1)
                ≡ false =
              ground arith in
            approved-Ends _ flow_id _ now later valid₂ read₂
              (ap (λ b. if b then f₁.state else mfa_approved) again)
        | inr passed ↦
            let is₁ : f₁.state ≡ mfa_approved =
              ap (λ b. if b then f.state else mfa_approved) passed in
            subst (Ends flow_id now later)
              (sym (apply_verify_mfa-approved fs₁ flow_id f₁ valid₁ read₁ us₁ code named is₁))
              (approved-Ends fs₁ flow_id f₁ now later valid₁ read₁ is₁)
      ]
