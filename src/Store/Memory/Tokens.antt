-- ===== src/Store/Memory/Tokens.antt =====
-- server/internal/store/memory/sessions.go: which session `GetByRefreshToken` finds.
use authpilot.Common.{
  String, ◌≡◌, ◌≢◌, refl, sym, ap, ◌∙◌, some, [], ◌∷◌, arith, ◌==◌, eq_iff, Bool-cases, inl, inr,
  ne→==-false,
}
use authpilot.Common.GoMap.{
  GoMap, lookup, values, HasUniqueKeys, Entries, Entries-self, Entries-weaken,
}
use authpilot.Domain.{Session}
use authpilot.Store.{not_found, ok, err}
use authpilot.Store.Memory.Sessions.{first_with_token}

first_with_token-missing :
    (token : String) (m : GoMap Session)
    → Entries (λ k v. v.refresh_token ≢ token) m
    → first_with_token token (values m) ≡ err not_found
unfolding first_with_token values
first_with_token-missing token [] h = refl
first_with_token-missing token ((k, session) ∷ rest) h =
    rw (ne→==-false session.refresh_token token h.0) (first_with_token-missing token rest h.1)

-- a session whose token nobody holds is not found
pub first_with_token-none :
    (token : String) (m : GoMap Session)
    → HasUniqueKeys m
    → ((k : String) (v : Session) → lookup k m ≡ some v → v.refresh_token ≢ token)
    → first_with_token token (values m) ≡ err not_found
first_with_token-none token m unique nobody =
    first_with_token-missing token m (Entries-weaken _ _ nobody m (Entries-self m unique))

-- where the session comes from
pub first_with_token_sound :
    (token : String) (m all : GoMap Session) (s : Session)
    → Entries (λ k v. lookup k all ≡ some v) m
    → first_with_token token (values m) ≡ ok s
    → (k : String) × (lookup k all ≡ some s) × (s.refresh_token ≡ token)
unfolding first_with_token values
first_with_token_sound token [] all s h e = cc
first_with_token_sound token ((k, session) ∷ rest) all s h e =
    elim (Bool-cases (session.refresh_token == token)) [
      | inl hit ↦
          let same : session ≡ s = cc (rw hit at e) in
          (
            k,
            h.0 ∙ ap some same,
            ap (λ (x : Session). x.refresh_token) (sym same)
                ∙ (eq_iff session.refresh_token token).0 hit,
          )
      | inr miss ↦ first_with_token_sound token rest all s h.1 (rw miss at e)
    ]

first_with_token_complete :
    (token : String) (m : GoMap Session) (k : String) (s : Session)
    → lookup k m ≡ some s
    → s.refresh_token ≡ token
    → (g : Session) × (first_with_token token (values m) ≡ ok g)
unfolding first_with_token lookup values
first_with_token_complete token [] k s h e = cc
first_with_token_complete token ((i, session) ∷ rest) k s h e =
    elim (Bool-cases (session.refresh_token == token)) [
      | inl hit ↦ (session, rw hit refl)
      | inr miss ↦ rw miss (
          first_with_token_complete token rest k s
            (ground (arith, eq_iff i k, eq_iff session.refresh_token token)) e)
    ]

-- the one session that holds the token is found
pub first_with_token-only :
    (token : String) (m : GoMap Session) (k : String) (s : Session)
    → HasUniqueKeys m
    → lookup k m ≡ some s
    → s.refresh_token ≡ token
    → ((j : String) (v : Session) → lookup j m ≡ some v → v.refresh_token ≡ token → j ≡ k)
    → first_with_token token (values m) ≡ ok s
first_with_token-only token m k s unique stored holds only =
    let (g, found_one) = first_with_token_complete token m k s stored holds in
    let (j, at_j, also) = first_with_token_sound token m m g (Entries-self m unique) found_one in
    let here : some g ≡ some s = sym at_j ∙ ap (λ x. lookup x m) (only j g at_j also) ∙ stored in
    found_one ∙ cc
