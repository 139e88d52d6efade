-- ===== src/Personality/Tests.antt =====
-- The theorem about claims, at the claims of a token for Azure AD.
use authpilot.Common.{refl, inl, inr, [], ◌∷◌, ==-false→ne}
use authpilot.Common.GoMap.{GoMap, lookup}
use authpilot.Domain.{Value, str}
use authpilot.Personality.{rename, azure_ad}
use authpilot.Personality.Claims.{IsSole}

abbrev claims : GoMap Value
claims = ("sub", str "u1") ∷ ("email", str "ada@example.com") ∷ []

email_alone : IsSole azure_ad "email" claims
unfolding rename lookup
email_alone = (inr (==-false→ne "sub" "preferred_username" refl), (inl refl, tt))
