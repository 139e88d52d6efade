-- ===== src/Flow/Transitions.antt =====
-- The transition table, as a relation.
use mathlib.Core.Bool.{false≢true}
use authpilot.Common.GoMap.{lookup}
use authpilot.Common.{
  String, ◌≡◌, refl, sym, ap, ◌∙◌, true, false, some, List, [], ◌∷◌, arith, ◌==◌, eq_iff,
  Bool-cases, inl, inr, ==_sym, or-true, ◌⊎◌, ◌↔◌, contains, Has,
}
use authpilot.Flow.{
  initiated, user_picked, mfa_pending, web_authn_pending, mfa_approved, mfa_denied, complete,
  error_state, can_transition, allows, valid_transitions,
}

-- the edges of the diagram
pub data Edge : String → String → Type 0 where
  pick : {s t : String} → s ≡ initiated → t ≡ user_picked → Edge s t
  abort : {s t : String} → s ≡ initiated → t ≡ error_state → Edge s t
  ask : {s t : String} → s ≡ user_picked → t ≡ mfa_pending → Edge s t
  ask_key : {s t : String} → s ≡ user_picked → t ≡ web_authn_pending → Edge s t
  finish : {s t : String} → s ≡ user_picked → t ≡ complete → Edge s t
  lock : {s t : String} → s ≡ user_picked → t ≡ error_state → Edge s t
  approve :
      {s t : String} → (s ≡ mfa_pending) ⊎ (s ≡ web_authn_pending) → t ≡ mfa_approved → Edge s t
  deny : {s t : String} → (s ≡ mfa_pending) ⊎ (s ≡ web_authn_pending) → t ≡ mfa_denied → Edge s t
  fail : {s t : String} → (s ≡ mfa_pending) ⊎ (s ≡ web_authn_pending) → t ≡ error_state → Edge s t
  conclude : {s t : String} → s ≡ mfa_approved → t ≡ complete → Edge s t

==-true : (s t : String) → (s == t) ≡ true → t ≡ s
==-true s t h = sym ((eq_iff s t).0 h)

from_user_picked : (s : String) → can_transition s user_picked ≡ (s == initiated)
unfolding can_transition
from_user_picked s = rw (==_sym s initiated) (ground arith)

-- only an initiated flow can take a user
pub can_transition-user_picked :
    (s : String) → (can_transition s user_picked ≡ true) → s ≡ initiated
can_transition-user_picked s h = (eq_iff s initiated).0 (sym (from_user_picked s) ∙ h)

-- the rows of the table that are not empty
abbrev after_initiated : List String
after_initiated = user_picked ∷ error_state ∷ []

abbrev after_picked : List String
after_picked = mfa_pending ∷ web_authn_pending ∷ complete ∷ error_state ∷ []

abbrev after_pending : List String
after_pending = mfa_approved ∷ mfa_denied ∷ error_state ∷ []

abbrev after_approved : List String
after_approved = complete ∷ []

contains-Has : (xs : List String) (t : String) → contains xs t ≡ true → Has t xs
contains-Has [] t h = absurd (false≢true h)
contains-Has (x ∷ xs) t h = elim (or-true (x == t) _ h) [
  | inl e ↦ inl ((eq_iff x t).0 e)
  | inr later ↦ inr (contains-Has xs t later)
]

from_initiated : (s t : String) → s ≡ initiated → Has t after_initiated → Edge s t
from_initiated s t e (inl p) = pick e (sym p)
from_initiated s t e (inr (inl p)) = abort e (sym p)
from_initiated s t e (inr (inr h)) = elim h [ ]

from_picked : (s t : String) → s ≡ user_picked → Has t after_picked → Edge s t
from_picked s t e (inl p) = ask e (sym p)
from_picked s t e (inr (inl p)) = ask_key e (sym p)
from_picked s t e (inr (inr (inl p))) = finish e (sym p)
from_picked s t e (inr (inr (inr (inl p)))) = lock e (sym p)
from_picked s t e (inr (inr (inr (inr h)))) = elim h [ ]

from_pending :
    (s t : String) → (s ≡ mfa_pending) ⊎ (s ≡ web_authn_pending) → Has t after_pending → Edge s t
from_pending s t e (inl p) = approve e (sym p)
from_pending s t e (inr (inl p)) = deny e (sym p)
from_pending s t e (inr (inr (inl p))) = fail e (sym p)
from_pending s t e (inr (inr (inr h))) = elim h [ ]

from_approved : (s t : String) → s ≡ mfa_approved → Has t after_approved → Edge s t
from_approved s t e (inl p) = conclude e (sym p)
from_approved s t e (inr h) = elim h [ ]

-- the first lookup, in a row that the tests before it have passed by
module _ (s t : String) (h : can_transition s t ≡ true) where
  reads : (ts : List String) → lookup s valid_transitions ≡ some ts → Has t ts
  unfolding can_transition
  reads ts e = contains-Has ts t (sym (ap (λ o. allows o t) e) ∙ h)

  stuck : allows (lookup s valid_transitions) t ≡ false → ⊥
  unfolding can_transition
  stuck e = false≢true (sym e ∙ h)

  pub can_transition-Edge : Edge s t
  unfolding lookup
  can_transition-Edge = elim (Bool-cases (initiated == s)) [
    | inl e ↦ from_initiated s t (==-true _ s e) (reads after_initiated (rw (e, lookup) refl))
    | inr n₁ ↦ elim (Bool-cases (user_picked == s)) [
      | inl e ↦ from_picked s t (==-true _ s e) (reads after_picked (rw (n₁, e, lookup) refl))
      | inr n₂ ↦ elim (Bool-cases (mfa_pending == s)) [
        | inl e ↦
            from_pending s t (inl (==-true _ s e))
              (reads after_pending (rw (n₁, n₂, e, lookup) refl))
        | inr n₃ ↦ elim (Bool-cases (web_authn_pending == s)) [
          | inl e ↦
              from_pending s t (inr (==-true _ s e))
                (reads after_pending (rw (n₁, n₂, n₃, e, lookup) refl))
          | inr n₄ ↦ elim (Bool-cases (mfa_approved == s)) [
            | inl e ↦
                from_approved s t (==-true _ s e)
                  (reads after_approved (rw (n₁, n₂, n₃, n₄, e, lookup) refl))
            | inr n₅ ↦ absurd (stuck (ground arith))
          ]
        ]
      ]
    ]
  ]

pub Edge-can_transition : (s t : String) → Edge s t → can_transition s t ≡ true
unfolding can_transition
Edge-can_transition s t (pick e p) = rw (e, p) refl
Edge-can_transition s t (abort e p) = rw (e, p) refl
Edge-can_transition s t (ask e p) = rw (e, p) refl
Edge-can_transition s t (ask_key e p) = rw (e, p) refl
Edge-can_transition s t (finish e p) = rw (e, p) refl
Edge-can_transition s t (lock e p) = rw (e, p) refl
Edge-can_transition s t (approve (inl e) p) = rw (e, p) refl
Edge-can_transition s t (approve (inr e) p) = rw (e, p) refl
Edge-can_transition s t (deny (inl e) p) = rw (e, p) refl
Edge-can_transition s t (deny (inr e) p) = rw (e, p) refl
Edge-can_transition s t (fail (inl e) p) = rw (e, p) refl
Edge-can_transition s t (fail (inr e) p) = rw (e, p) refl
Edge-can_transition s t (conclude e p) = rw (e, p) refl

-- The table allows a transition exactly when it is an edge of the diagram.
pub can_transition_iff : (s t : String) → (can_transition s t ≡ true) ↔ Edge s t
can_transition_iff s t = (can_transition-Edge s t, Edge-can_transition s t)
