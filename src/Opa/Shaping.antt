-- ===== src/Opa/Shaping.antt =====
-- What a provider's personality changes of the user that a policy sees.
use authpilot.Common.{String, ◌≡◌, refl, some, Option-cases, inl, inr}
use authpilot.Common.Case.{to_lower}
use authpilot.Common.Text.{trim_space}
use authpilot.Common.GoMap.{lookup, insert, Entries, Entries-lookup}
use authpilot.Domain.{obj, arr, User}
use authpilot.Domain.Json.{fields_of}
use authpilot.Personality.{Personality, apply, add_renamed, add_extra, rename, registry, get}
use authpilot.Opa.Input.{user_claims, user_to_claims, texts}

-- the claims and the roles that a policy sees of a user
abbrev IsUnshaped : Personality → User → Type 0
IsUnshaped p user =
    (lookup "claims" (apply p (user_to_claims user)) ≡ some (obj (fields_of (user_claims user))))
    × (lookup "roles" (apply p (user_to_claims user)) ≡ some (arr (texts user.groups)))

registered : (user : User) → Entries (λ k p. IsUnshaped p user) registry
unfolding apply add_renamed add_extra rename lookup insert user_to_claims
registered user = (
  (refl, refl),
  (
    (refl, refl),
    ((refl, refl), ((refl, refl), ((refl, refl), ((refl, refl), ((refl, refl), tt))))),
  ),
)

-- Whatever provider a request names, the policy sees the claims of the user under their own names and the
-- roles of the user: no claim is renamed as the provider names it.
pub get-IsUnshaped :
    (id : String) (user : User)
    → (lookup "claims" (apply (get id) (user_to_claims user))
        ≡ some (obj (fields_of (user_claims user))))
      × (lookup "roles" (apply (get id) (user_to_claims user)) ≡ some (arr (texts user.groups)))
unfolding get
get-IsUnshaped id user = elim (Option-cases (lookup (to_lower (trim_space id)) registry)) [
  | inl (p, e) ↦
      rw (e, get)
        (Entries-lookup (λ k p. IsUnshaped p user) (to_lower (trim_space id)) p registry
          (registered user) e)
  | inr e ↦ rw (e, get) (registered user).0
]
