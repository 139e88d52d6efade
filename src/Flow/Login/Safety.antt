-- ===== src/Flow/Login/Safety.antt =====
-- Any sequence of login requests, over stores that keep their promise: the stored flows move along
-- the diagram, and a flow that has ended stays as it ended.
use mathlib.Core.Path.{subst}
use mathlib.Core.Bool.{false≢true}
use authpilot.Common.{
  ℕ, ◌-◌, leb, String, ◌≡◌, refl, sym, ap, ◌∙◌, true, false, ◌&&◌, Option, none, some, List, [],
  ◌∷◌, arith, ◌==◌, eq_iff, if◌then◌else◌, Bool-cases, inl, inr, ◌⊎◌,
}
use authpilot.Domain.{User, Flow}
use authpilot.Store.{
  not_found, Result, ok, err, found, is_some, Result-cases, CrudStore, FlowStore, IsCrud,
}
use authpilot.Flow.{
  mfa_approved, mfa_denied, complete, error_state, mfa_pending, slow_mfa, normalize_scenario,
  can_transition,
}
use authpilot.Flow.Transitions.{Edge, Edge-can_transition}
use authpilot.Flow.Login.{
  is_terminal, apply_select_user, apply_verify_mfa, approve_or_deny_flow, get_and_auto_advance_flow,
  login_mfa, or_as_read, slow_delay,
}
use authpilot.Flow.Login.Effects.{
  Reach, here, step, Reach-trans, Wrote, Effect, apply_select_user-Effect, apply_verify_mfa-Effect,
  approve_or_deny_flow-Effect, get_and_auto_advance_flow-Effect, move_to_complete-Effect,
}

-- an ended flow has no way on
is_terminal-cases :
    (s : String) → is_terminal s ≡ true → ((s ≡ complete) ⊎ (s ≡ mfa_denied)) ⊎ (s ≡ error_state)
is_terminal-cases s h = ground (arith, eq_iff s complete, eq_iff s mfa_denied, eq_iff s error_state)

no_way_on : (s t : String) → is_terminal s ≡ true → Edge s t → ⊥
unfolding can_transition
no_way_on s t h e = elim (is_terminal-cases s h) [
  | inl (inl p) ↦ false≢true (sym (ap (λ x. can_transition x t) p) ∙ Edge-can_transition s t e)
  | inl (inr p) ↦ false≢true (sym (ap (λ x. can_transition x t) p) ∙ Edge-can_transition s t e)
  | inr p ↦ false≢true (sym (ap (λ x. can_transition x t) p) ∙ Edge-can_transition s t e)
]

pub Reach-is_terminal : {s t : String} → is_terminal s ≡ true → Reach s t → t ≡ s
Reach-is_terminal h here = refl
Reach-is_terminal {s} h (step {t = t} e r) = absurd (no_way_on s t h e)

-- the requests that reach the login handlers
pub data Request : Type 0 where
  select_user : (now : ℕ) (flow_id user_id expected : String) → Request
  verify : (flow_id code expected : String) → Request
  approve : (now : ℕ) (flow_id expected : String) → Request
  deny : (now : ℕ) (flow_id expected : String) → Request
  show : (now : ℕ) (flow_id : String) → Request
  login_page : (now later : ℕ) (flow_id : String) → Request

module _ {FS US : Type 0} (flows : FlowStore FS) (users : CrudStore US User) where
  unfoldable pub serve : FS × US → Request → FS × US
  serve (fs, us) (select_user now flow_id user_id expected) =
      let (fs', us', _) = apply_select_user flows users now fs us flow_id user_id expected in
      (fs', us')
  serve (fs, us) (verify flow_id code expected) =
      let (fs', us', _) = apply_verify_mfa flows users fs us flow_id code expected in (fs', us')
  serve (fs, us) (approve now flow_id expected) =
      let (fs', us', _) = approve_or_deny_flow flows users now fs us flow_id true expected in
      (fs', us')
  serve (fs, us) (deny now flow_id expected) =
      let (fs', us', _) = approve_or_deny_flow flows users now fs us flow_id false expected in
      (fs', us')
  serve (fs, us) (show now flow_id) = ((get_and_auto_advance_flow flows users now fs flow_id).0, us)
  serve (fs, us) (login_page now later flow_id) =
      ((login_mfa flows users now later fs flow_id).0, us)

  unfoldable pub serve_all : FS × US → List Request → FS × US
  serve_all world [] = world
  serve_all world (r ∷ rs) = serve_all (serve world r) rs

  module _ (view : FS → String → Option Flow) (IsValid : FS → Type 0)
      (laws : IsCrud (λ (f : Flow). f.id) flows.crud view IsValid) where
    -- every stored flow is still stored, and has moved along the diagram
    pub record Progress (fs fs' : FS) : Type 0 where
      pub valid : IsValid fs'
      pub moves :
          (k : String) (f : Flow)
          → view fs k ≡ some f
          → (g : Flow) × (view fs' k ≡ some g) × Reach f.state g.state

    Progress-refl : (fs : FS) → IsValid fs → Progress fs fs
    Progress-refl fs v = record { valid = v; moves = λ k f e. (f, e, here) }

    Progress-trans : {a b c : FS} → Progress a b → Progress b c → Progress a c
    Progress-trans p q = record {
      valid = q.valid;
      moves = λ k f e.
          let (g, e', r) = p.moves k f e in
          let (h, e'', r') = q.moves k g e' in (h, e'', Reach-trans r r');
    }

    pub read-view :
        (fs : FS) (k : String) (f : Flow) → flows.crud.get_by_id fs k ≡ ok f → view fs k ≡ some f
    read-view fs k f h = was_found (view fs k) (sym (laws.get_view fs k) ∙ h)
      where
        was_found : (o : Option Flow) → found o ≡ ok f → o ≡ some f
        was_found none e = cc
        was_found (some g) e = cc

    Wrote-moves :
        (fs fs' : FS)
        → IsValid fs
        → Wrote flows users fs fs'
        → (k : String) (f : Flow) → view fs k ≡ some f
        → (g : Flow) × (view fs' k ≡ some g) × Reach f.state g.state
    Wrote-moves fs fs' v w k f e =
        let stored = read-view fs w.key w.before w.read in
        let own : w.after.id ≡ w.key = w.same_id ∙ laws.view_key fs w.key w.before v stored in
        let after_view : view fs' k
            ≡ (if is_some (view fs w.key) && (w.key == k) then some w.after else view fs k) =
          ap (λ s. view s k) w.stored
          ∙ laws.update_view fs w.after k
          ∙ ap (λ x. if is_some (view fs x) && (x == k) then some w.after else view fs k) own in
        elim (Bool-cases (w.key == k)) [
          | inl hit ↦
              let at_k : view fs w.key ≡ view fs k = ap (view fs) ((eq_iff w.key k).0 hit) in
              let same : w.before ≡ f = cc (sym stored ∙ at_k ∙ e) in
              (
                w.after,
                after_view ∙ rw (stored, hit) refl,
                subst (λ (x : Flow). Reach x.state w.after.state) same w.moved,
              )
          | inr miss ↦ (f, after_view ∙ rw (stored, miss) e, here)
        ]

    Effect-Progress : (fs fs' : FS) → IsValid fs → Effect flows users fs fs' → Progress fs fs'
    Effect-Progress fs fs' v (inl same) = rw same (Progress-refl fs v)
    Effect-Progress fs fs' v (inr w) = record {
      valid = rw w.stored (laws.update-IsValid fs w.after v);
      moves = Wrote-moves fs fs' v w;
    }

    -- an update of a flow that was read succeeds, and is read back
    pub update-read :
        (fs : FS) (k : String) (f g : Flow)
        → IsValid fs
        → flows.crud.get_by_id fs k ≡ ok f
        → g.id ≡ f.id
        → ((flows.crud.update fs g).1 ≡ ok g)
          × (flows.crud.get_by_id (flows.crud.update fs g).0 k ≡ ok g)
    update-read fs k f g v read i =
        let stored = read-view fs k f read in
        let own : g.id ≡ k = i ∙ laws.view_key fs k f v stored in
        let present : is_some (view fs g.id) ≡ true =
          ap (λ x. is_some (view fs x)) own ∙ ap is_some stored in
        let after : view (flows.crud.update fs g).0 k ≡ some g =
          laws.update_view fs g k ∙ rw (present, (eq_iff g.id k).1 own) refl in
        (
          laws.update_result fs g ∙ ap (λ b. if b then ok g else err not_found) present,
          laws.get_view _ k ∙ ap found after,
        )

    or_as_read-eq :
        (f g : Flow) (r : FS × Result Flow) → r.1 ≡ ok g → or_as_read flows users f r ≡ (r.0, ok g)
    or_as_read-eq f g (fs, ok h) e = λ i. (fs, e i)
    or_as_read-eq f g (fs, err x) e = cc

    -- what the auto-advance returns is what is then stored
    auto-read :
        (now : ℕ) (fs : FS) (flow_id : String) (f : Flow)
        → IsValid fs
        → (get_and_auto_advance_flow flows users now fs flow_id).1 ≡ ok f
        → flows.crud.get_by_id (get_and_auto_advance_flow flows users now fs flow_id).0 flow_id
          ≡ ok f
    unfolding get_and_auto_advance_flow
    auto-read now fs flow_id f v h = elim (Result-cases (flows.crud.get_by_id fs flow_id)) [
      | inr (e, none_read) ↦ cc (rw (none_read, get_and_auto_advance_flow) at h)
      | inl (g, read) ↦
          let approved = record g { state = mfa_approved } in
          let due =
            (g.state == mfa_pending)
            && (normalize_scenario g.scenario == slow_mfa)
            && leb slow_delay (now - g.created_at)
            && can_transition g.state mfa_approved in
          let (done, there) = update-read fs flow_id g approved v read refl in
          elim (Bool-cases due) [
            | inl passed ↦
                let kept = or_as_read-eq approved approved (flows.crud.update fs approved) done in
                let same : approved ≡ f =
                  cc (rw (read, get_and_auto_advance_flow, passed, kept) at h) in
                rw (read, get_and_auto_advance_flow, passed, kept) (there ∙ ap ok same)
            | inr early ↦
                let same : g ≡ f = cc (rw (read, get_and_auto_advance_flow, early) at h) in
                rw (read, get_and_auto_advance_flow, early) (read ∙ ap ok same)
          ]
    ]

    login_mfa-Progress :
        (now later : ℕ) (fs : FS) (flow_id : String)
        → IsValid fs
        → Progress fs (login_mfa flows users now later fs flow_id).0
    unfolding login_mfa
    login_mfa-Progress now later fs flow_id v =
        let fs' = (get_and_auto_advance_flow flows users now fs flow_id).0 in
        let p =
          Effect-Progress fs fs' v (get_and_auto_advance_flow-Effect flows users now fs flow_id) in
        elim (Result-cases (get_and_auto_advance_flow flows users now fs flow_id).1) [
          | inr (e, failed) ↦ rw (failed, login_mfa) p
          | inl (f, read) ↦
              let stored = auto-read now fs flow_id f v read in
              let q =
                Effect-Progress fs' _ p.valid
                  (move_to_complete-Effect flows users later fs' flow_id f stored) in
              elim (Bool-cases (f.state == mfa_approved)) [
                | inl hit ↦ rw (read, login_mfa, hit) (Progress-trans p q)
                | inr miss ↦ rw (read, login_mfa, miss) p
              ]
        ]

    serve-Progress :
        (fs : FS) (us : US) (r : Request) → IsValid fs → Progress fs (serve (fs, us) r).0
    unfolding serve
    serve-Progress fs us (select_user now flow_id user_id expected) v =
        Effect-Progress fs _ v
          (apply_select_user-Effect flows users now fs us flow_id user_id expected)
    serve-Progress fs us (verify flow_id code expected) v =
        Effect-Progress fs _ v (apply_verify_mfa-Effect flows users fs us flow_id code expected)
    serve-Progress fs us (approve now flow_id expected) v =
        Effect-Progress fs _ v
          (approve_or_deny_flow-Effect flows users now fs us flow_id true expected)
    serve-Progress fs us (deny now flow_id expected) v =
        Effect-Progress fs _ v
          (approve_or_deny_flow-Effect flows users now fs us flow_id false expected)
    serve-Progress fs us (show now flow_id) v =
        Effect-Progress fs _ v (get_and_auto_advance_flow-Effect flows users now fs flow_id)
    serve-Progress fs us (login_page now later flow_id) v =
        login_mfa-Progress now later fs flow_id v

    serve_all-Progress :
        (fs : FS) (us : US) (rs : List Request) → IsValid fs → Progress fs (serve_all (fs, us) rs).0
    unfolding serve_all
    serve_all-Progress fs us [] v = Progress-refl fs v
    serve_all-Progress fs us (r ∷ rs) v =
        let p = serve-Progress fs us r v in
        let (fs', us') = serve (fs, us) r in
        Progress-trans p (serve_all-Progress fs' us' rs p.valid)

    -- Over any flow store that keeps the promise of the interface, and any users: after any sequence
    -- of login requests each stored flow is still stored, and its state has moved along the edges of
    -- the diagram only.
    pub serve_all-Reach :
        (fs : FS) (us : US) (rs : List Request) (k : String) (f : Flow)
        → IsValid fs
        → view fs k ≡ some f
        → (g : Flow) × (view (serve_all (fs, us) rs).0 k ≡ some g) × Reach f.state g.state
    serve_all-Reach fs us rs k f v e = (serve_all-Progress fs us rs v).moves k f e

    -- A flow that is complete, denied or in error keeps that state through any sequence of login
    -- requests, over any flow store that keeps the promise of the interface.
    pub serve_all-terminal :
        (fs : FS) (us : US) (rs : List Request) (k : String) (f : Flow)
        → IsValid fs
        → view fs k ≡ some f
        → is_terminal f.state ≡ true
        → (g : Flow) × (view (serve_all (fs, us) rs).0 k ≡ some g) × (g.state ≡ f.state)
    serve_all-terminal fs us rs k f v e ended =
        let (g, stored, r) = serve_all-Reach fs us rs k f v e in
        (g, stored, Reach-is_terminal ended r)
