-- ===== src/Personality/Claims.antt =====
-- Which claims a token has once a personality was applied.
use authpilot.Common.{
  String, ◌≡◌, ◌≢◌, ◌⊎◌, refl, sym, ap, ◌∙◌, Option, none, some, [], ◌∷◌, ◌==◌, eq_iff, eq_refl,
  Bool-cases, inl, inr, ne→==-false, ==-false→ne,
}
use authpilot.Common.GoMap.{GoMap, lookup, insert, lookup-insert, HasUniqueKeys, Entries}
use authpilot.Domain.{Value}
use authpilot.Personality.{Personality, rename, add_renamed, insert_if_absent, add_extra, apply}

insert_if_absent-keeps :
    (k j : String) (v w : Value) (o : Option Value) (out : GoMap Value)
    → lookup j out ≡ o
    → lookup k out ≡ some v
    → lookup k (insert_if_absent j w o out) ≡ some v
insert_if_absent-keeps k j v w none out absent e = elim (Bool-cases (j == k)) [
  | inl hit ↦ cc (absent, e, (eq_iff j k).0 hit)
  | inr miss ↦ lookup-insert j k w out ∙ rw miss e
]
insert_if_absent-keeps k j v w (some x) out absent e = e

pub add_extra-keeps :
    (k : String) (v : Value) (out extra : GoMap Value)
    → lookup k out ≡ some v
    → lookup k (add_extra out extra) ≡ some v
unfolding add_extra
add_extra-keeps k v out [] e = e
add_extra-keeps k v out ((j, w) ∷ extra) e =
    add_extra-keeps k v (insert_if_absent j w (lookup j out) out) extra
      (insert_if_absent-keeps k j v w (lookup j out) out refl e)

absent-Entries : (k : String) (m : GoMap Value) → lookup k m ≡ none → Entries (λ j w. j ≢ k) m
unfolding lookup
absent-Entries k [] e = tt
absent-Entries k ((j, w) ∷ m) e = elim (Bool-cases (j == k)) [
  | inl hit ↦ cc (rw hit at e)
  | inr miss ↦ (==-false→ne j k miss, absent-Entries k m (rw miss at e))
]

module _ (p : Personality) (k : String) where
  -- no other claim is given the name that `k` is given
  abbrev pub IsSole : GoMap Value → Type 0
  IsSole = Entries (λ j w. (j ≡ k) ⊎ (rename p j ≢ rename p k))

  add_renamed-other :
      (out claims : GoMap Value)
      → Entries (λ j w. j ≢ k) claims
      → IsSole claims
      → lookup (rename p k) (add_renamed p out claims) ≡ lookup (rename p k) out
  unfolding add_renamed
  add_renamed-other out [] h s = refl
  add_renamed-other out ((j, w) ∷ claims) h (inl same, s) = absurd (h.0 same)
  add_renamed-other out ((j, w) ∷ claims) h (inr differ, s) =
      add_renamed-other (insert (rename p j) w out) claims h.1 s
      ∙ lookup-insert (rename p j) (rename p k) w out
      ∙ rw (ne→==-false (rename p j) (rename p k) differ) refl

  add_renamed-own :
      (v : Value) (out claims : GoMap Value)
      → HasUniqueKeys claims
      → IsSole claims
      → lookup k claims ≡ some v
      → lookup (rename p k) (add_renamed p out claims) ≡ some v
  unfolding add_renamed lookup
  add_renamed-own v out [] u s e = cc
  add_renamed-own v out ((j, w) ∷ claims) u s e = elim (Bool-cases (j == k)) [
    | inr miss ↦ add_renamed-own v (insert (rename p j) w out) claims u.1 s.1 (rw miss at e)
    | inl hit ↦
        let here : j ≡ k = (eq_iff j k).0 hit in
        let same : w ≡ v = cc (rw hit at e) in
        let gone : lookup k claims ≡ none = ap (λ x. lookup x claims) (sym here) ∙ u.0 in
        add_renamed-other (insert (rename p j) w out) claims (absent-Entries k claims gone) s.1
        ∙ lookup-insert (rename p j) (rename p k) w out
        ∙ rw (here, eq_refl (rename p k)) (ap some same)
  ]

  -- A claim is in the token under the name that the personality gives it, with its value, whatever the
  -- extra claims are and in whatever order the maps are visited, if no other claim is given that name.
  pub apply-keeps :
      (v : Value) (claims : GoMap Value)
      → HasUniqueKeys claims
      → IsSole claims
      → lookup k claims ≡ some v
      → lookup (rename p k) (apply p claims) ≡ some v
  unfolding apply
  apply-keeps v claims u s e =
      add_extra-keeps (rename p k) v (add_renamed p [] claims) p.extra_claims
        (add_renamed-own v [] claims u s e)
