-- ===== src/Flow/Login/Effects.antt =====
-- What a login handler may do to the stored flows: nothing, or one update of a flow that it has
-- read, whose state moves along the diagram.
use mathlib.Core.Path.{subst}
use authpilot.Common.{
  ℕ, ◌+◌, ◌-◌, eqb, ltb, leb, String, ◌≡◌, refl, sym, ◌∙◌, Bool, true, ◌&&◌, ◌||◌, arith, ◌==◌,
  if◌then◌else◌, Bool-cases, inl, inr, ◌⊎◌,
}
use authpilot.Common.Text.{trim_space}
use authpilot.Domain.{User, Flow}
use authpilot.Store.{Result, ok, err, Result-cases, CrudStore, FlowStore}
use authpilot.Flow.{
  user_picked, mfa_pending, web_authn_pending, mfa_approved, mfa_denied, complete, error_state,
  can_transition, is_web_authn, normalize_scenario, account_locked, requires_mfa, mfa_fail,
  slow_mfa,
}
use authpilot.Flow.Transitions.{Edge, can_transition-Edge}
use authpilot.Flow.Login.{
  Outcome, mark_terminal, save, save_then, select_known, apply_select_user, use_up, verify_pending,
  apply_verify_mfa, approve_pending, deny_pending, approve_or_deny_flow, get_and_auto_advance_flow,
  move_to_complete, differs, slow_delay, or_as_read,
}

-- any number of transitions
pub data Reach : String → String → Type 0 where
  here : {s : String} → Reach s s
  step : {s t u : String} → Edge s t → Reach t u → Reach s u

pub Reach-trans : {s t u : String} → Reach s t → Reach t u → Reach s u
Reach-trans here r = r
Reach-trans (step e q) r = step e (Reach-trans q r)

module _ {FS US : Type 0} (flows : FlowStore FS) (users : CrudStore US User) where
  -- an update of a flow that was read, along the diagram
  pub record Wrote (fs fs' : FS) : Type 0 where
    pub key : String
    pub before : Flow
    pub after : Flow
    pub read : flows.crud.get_by_id fs key ≡ ok before
    pub same_id : after.id ≡ before.id
    pub moved : Reach before.state after.state
    pub stored : fs' ≡ (flows.crud.update fs after).0

  abbrev pub Effect : FS → FS → Type 0
  Effect fs fs' = (fs' ≡ fs) ⊎ Wrote fs fs'

  pub save-store : (fs : FS) (g : Flow) → (save flows users fs g).0 ≡ (flows.crud.update fs g).0
  unfolding save
  save-store fs g = ground arith

  save_then-store :
      (fs : FS) (g : Flow) (o : Outcome)
      → (save_then flows users fs g o).0 ≡ (flows.crud.update fs g).0
  unfolding save_then
  save_then-store fs g o = ground arith

  pub mark_terminal-keeps :
      (now : ℕ) (f : Flow)
      → ((mark_terminal now f).id ≡ f.id) × ((mark_terminal now f).state ≡ f.state)
  unfolding mark_terminal
  mark_terminal-keeps now f = ground arith

  module _ (fs : FS) (k : String) (f : Flow) (read : flows.crud.get_by_id fs k ≡ ok f) where
    wrote :
        (g : Flow) (fs' : FS)
        → g.id ≡ f.id
        → Reach f.state g.state
        → fs' ≡ (flows.crud.update fs g).0
        → Effect fs fs'
    wrote g fs' i m s =
        inr (record {
          key = k;
          before = f;
          after = g;
          read = read;
          same_id = i;
          moved = m;
          stored = s;
        })

    saved : (g : Flow) → g.id ≡ f.id → Reach f.state g.state → Effect fs (save flows users fs g).0
    saved g i m = wrote g _ i m (save-store fs g)

    -- a flow that is stamped on its way
    saved_marked :
        (now : ℕ) (g : Flow)
        → g.id ≡ f.id
        → Reach f.state g.state
        → Effect fs (save flows users fs (mark_terminal now g)).0
    saved_marked now g i m =
        let (kept_id, kept_state) = mark_terminal-keeps now g in
        saved (mark_terminal now g) (kept_id ∙ i) (subst (Reach f.state) (sym kept_state) m)

    use_up-store :
        (r : FS × Outcome) (scenario : String) (us : US)
        → (use_up flows users r scenario us).0 ≡ r.0
    unfolding use_up
    use_up-store r scenario us = refl

    select_known-Effect :
        (now : ℕ) (us : US) (user : User) (user_id : String)
        → can_transition f.state user_picked ≡ true
        → Effect fs (select_known flows users now fs us f user user_id).0
    unfolding select_known
    select_known-Effect now us user user_id picked =
        let pick = can_transition-Edge f.state user_picked picked in
        let one = λ (s : String) (allowed : can_transition user_picked s ≡ true).
          step pick (step (can_transition-Edge user_picked s allowed) here) in
        let next_state = if is_web_authn user.mfa_method then web_authn_pending else mfa_pending in
        elim (Bool-cases
          (normalize_scenario (normalize_scenario user.next_flow) == account_locked)) [
            | inl locked ↦ elim (Bool-cases (can_transition user_picked error_state)) [
              | inl allowed ↦
                  rw (locked, allowed) (saved_marked now _ refl (one error_state allowed))
              | inr no_edge ↦ rw (locked, no_edge) (inl refl)
            ]
            | inr free ↦ elim (Bool-cases (requires_mfa user.mfa_method)) [
              | inl mfa ↦ elim (Bool-cases (can_transition user_picked next_state)) [
                | inl allowed ↦ rw (free, mfa, allowed) (saved _ refl (one next_state allowed))
                | inr no_edge ↦ rw (free, mfa, no_edge) (inl refl)
              ]
              | inr plain ↦ elim (Bool-cases (can_transition user_picked complete)) [
                | inl allowed ↦
                    rw (free, plain, allowed) (saved_marked now _ refl (one complete allowed))
                | inr no_edge ↦ rw (free, plain, no_edge) (inl refl)
              ]
            ]
          ]

    verify_pending-Effect :
        (us : US) (code : String) → Effect fs (verify_pending flows users fs us f code).0
    unfolding verify_pending use_up
    verify_pending-Effect us code =
        elim (Bool-cases ((normalize_scenario f.scenario == mfa_fail) && eqb (f.attempts + 1) 1)) [
          | inl first ↦ rw first (wrote _ _ refl here (save_then-store fs _ _))
          | inr later ↦ elim (Bool-cases (trim_space code == "")) [
            | inl empty ↦ rw (later, empty) (wrote _ _ refl here (save_then-store fs _ _))
            | inr given ↦ elim (Bool-cases (can_transition f.state mfa_approved)) [
              | inl allowed ↦
                  rw (later, given, allowed)
                    (saved _ refl (step (can_transition-Edge f.state mfa_approved allowed) here))
              | inr no_edge ↦ rw (later, given, no_edge) (inl refl)
            ]
          ]
        ]

    approve_pending-Effect :
        (now : ℕ) (us : US) → Effect fs (approve_pending flows users now fs us f).0
    unfolding approve_pending use_up
    approve_pending-Effect now us =
        elim (Bool-cases
          ((normalize_scenario f.scenario == slow_mfa) && ltb (now - f.created_at) slow_delay)) [
            | inl early ↦ rw early (inl refl)
            | inr due ↦ elim (Bool-cases (can_transition f.state mfa_approved)) [
              | inl allowed ↦
                  rw (due, allowed)
                    (saved _ refl (step (can_transition-Edge f.state mfa_approved allowed) here))
              | inr no_edge ↦ rw (due, no_edge) (inl refl)
            ]
          ]

    deny_pending-Effect : (now : ℕ) (us : US) → Effect fs (deny_pending flows users now fs us f).0
    unfolding deny_pending
    deny_pending-Effect now us = elim (Bool-cases (can_transition f.state mfa_denied)) [
      | inl allowed ↦
          rw allowed
            (saved_marked now _ refl (step (can_transition-Edge f.state mfa_denied allowed) here))
      | inr no_edge ↦ rw no_edge (inl refl)
    ]

  -- `applySelectUser` leaves the flows as they were, or makes one update along the diagram.
  pub apply_select_user-Effect :
      (now : ℕ) (fs : FS) (us : US) (flow_id user_id expected : String)
      → Effect fs (apply_select_user flows users now fs us flow_id user_id expected).0
  unfolding apply_select_user
  apply_select_user-Effect now fs us flow_id user_id expected =
      elim (Bool-cases ((flow_id == "") || (user_id == ""))) [
        | inl missing ↦ rw missing (inl refl)
        | inr given ↦ elim (Result-cases (flows.crud.get_by_id fs flow_id)) [
          | inr (e, none_read) ↦ rw (given, none_read) (inl refl)
          | inl (f, read) ↦ elim (Bool-cases (differs expected f.state)) [
            | inl other ↦ rw (given, read, other) (inl refl)
            | inr same ↦ elim (Bool-cases (can_transition f.state user_picked)) [
              | inr no_edge ↦ rw (given, read, same, no_edge) (inl refl)
              | inl allowed ↦ elim (Result-cases (users.get_by_id us user_id)) [
                | inr (e, none_read) ↦ rw (given, read, same, allowed, none_read) (inl refl)
                | inl (user, known) ↦
                    rw (given, read, same, allowed, known)
                      (select_known-Effect fs flow_id f read now us user user_id allowed)
              ]
            ]
          ]
        ]
      ]

  -- `applyVerifyMFA` too
  pub apply_verify_mfa-Effect :
      (fs : FS) (us : US) (flow_id code expected : String)
      → Effect fs (apply_verify_mfa flows users fs us flow_id code expected).0
  unfolding apply_verify_mfa
  apply_verify_mfa-Effect fs us flow_id code expected = elim (Bool-cases (flow_id == "")) [
    | inl missing ↦ rw missing (inl refl)
    | inr given ↦ elim (Result-cases (flows.crud.get_by_id fs flow_id)) [
      | inr (e, none_read) ↦ rw (given, none_read) (inl refl)
      | inl (f, read) ↦ elim (Bool-cases (differs expected f.state)) [
        | inl other ↦ rw (given, read, other) (inl refl)
        | inr same ↦ elim (Bool-cases (f.state == mfa_pending)) [
          | inr elsewhere ↦ rw (given, read, same, elsewhere) (inl refl)
          | inl waits ↦
              rw (given, read, same, waits) (verify_pending-Effect fs flow_id f read us code)
        ]
      ]
    ]
  ]

  -- and `approveOrDenyFlow`
  pub approve_or_deny_flow-Effect :
      (now : ℕ) (fs : FS) (us : US) (flow_id : String) (approve : Bool) (expected : String)
      → Effect fs (approve_or_deny_flow flows users now fs us flow_id approve expected).0
  unfolding approve_or_deny_flow
  approve_or_deny_flow-Effect now fs us flow_id approve expected =
      elim (Result-cases (flows.crud.get_by_id fs flow_id)) [
        | inr (e, none_read) ↦ rw (none_read, approve_or_deny_flow) (inl refl)
        | inl (f, read) ↦ elim (Bool-cases (differs expected f.state)) [
          | inl other ↦ rw (read, approve_or_deny_flow, other) (inl refl)
          | inr same ↦ elim (Bool-cases (f.state == mfa_pending)) [
            | inr elsewhere ↦ rw (read, approve_or_deny_flow, same, elsewhere) (inl refl)
            | inl waits ↦ elim (Bool-cases approve) [
              | inl yes_ ↦
                  rw (read, approve_or_deny_flow, same, waits, yes_)
                    (approve_pending-Effect fs flow_id f read now us)
              | inr no_ ↦
                  rw (read, approve_or_deny_flow, same, waits, no_)
                    (deny_pending-Effect fs flow_id f read now us)
            ]
          ]
        ]
      ]

  or_as_read-store : (f : Flow) (r : FS × Result Flow) → (or_as_read flows users f r).0 ≡ r.0
  or_as_read-store f (fs, ok g) = refl
  or_as_read-store f (fs, err e) = refl

  -- and `getAndAutoAdvanceFlow`
  pub get_and_auto_advance_flow-Effect :
      (now : ℕ) (fs : FS) (flow_id : String)
      → Effect fs (get_and_auto_advance_flow flows users now fs flow_id).0
  unfolding get_and_auto_advance_flow
  get_and_auto_advance_flow-Effect now fs flow_id =
      elim (Result-cases (flows.crud.get_by_id fs flow_id)) [
        | inr (e, none_read) ↦ rw (none_read, get_and_auto_advance_flow) (inl refl)
        | inl (f, read) ↦
            let due =
              (f.state == mfa_pending)
              && (normalize_scenario f.scenario == slow_mfa)
              && leb slow_delay (now - f.created_at)
              && can_transition f.state mfa_approved in
            elim (Bool-cases due) [
              | inl passed ↦
                  let allowed : can_transition f.state mfa_approved ≡ true = ground arith in
                  rw (read, get_and_auto_advance_flow, passed)
                    (wrote fs flow_id f read _ _ refl
                      (step (can_transition-Edge f.state mfa_approved allowed) here)
                      (or_as_read-store _ _))
              | inr early ↦ rw (read, get_and_auto_advance_flow, early) (inl refl)
            ]
      ]

  -- and `moveToComplete`, of a flow that was read
  pub move_to_complete-Effect :
      (now : ℕ) (fs : FS) (flow_id : String) (f : Flow)
      → flows.crud.get_by_id fs flow_id ≡ ok f
      → Effect fs (move_to_complete flows users now fs f).0
  unfolding move_to_complete
  move_to_complete-Effect now fs flow_id f read =
      elim (Bool-cases (can_transition f.state complete)) [
        | inr no_edge ↦ rw no_edge (inl refl)
        | inl allowed ↦
            let done = mark_terminal now (record f { state = complete }) in
            let (kept_id, kept_state) = mark_terminal-keeps now (record f { state = complete }) in
            let moved = step (can_transition-Edge f.state complete allowed) here in
            rw allowed (
              wrote fs flow_id f read done _ kept_id (subst (Reach f.state) (sym kept_state) moved)
                (ground arith))
      ]
