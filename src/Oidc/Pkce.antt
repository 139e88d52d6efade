-- ===== src/Oidc/Pkce.antt =====
-- PKCE: what `/authorize` lets through can be redeemed with the right verifier only.
use authpilot.Common.{
  ℕ, String, ◌≡◌, ◌≢◌, ◌↔◌, refl, Bool, true, false, ◌||◌, none, arith, ◌==◌, eq_iff, ne→==-false,
}
use authpilot.Oidc.{AuthorizeQuery, is_s256, verify_pkce, authorize_refusal, new_flow}

-- the challenge is there and the method is one that is verified
HasChallenge : String → String → Type 0
HasChallenge challenge method =
    ((challenge == "") ≡ false) × ((is_s256 method || (method == "")) ≡ true)

authorize_refusal-none :
    (parses : String → Bool) (q : AuthorizeQuery)
    → authorize_refusal parses q ≡ none
    → HasChallenge q.code_challenge q.code_challenge_method
unfolding authorize_refusal HasChallenge
authorize_refusal-none parses q h = ground arith

pub verify_pkce-none :
    (derive : String → String) (challenge method verifier : String)
    → verify_pkce derive challenge method verifier ≡ none
    → (challenge ≢ "") × (verifier ≢ "") × (derive verifier ≡ challenge)
unfolding verify_pkce
verify_pkce-none derive challenge method verifier h =
    ground (arith, eq_iff challenge "", eq_iff verifier "", eq_iff (derive verifier) challenge)

verify_pkce-passes :
    (derive : String → String) (challenge method verifier : String)
    → HasChallenge challenge method
    → verifier ≢ ""
    → derive verifier ≡ challenge
    → verify_pkce derive challenge method verifier ≡ none
unfolding verify_pkce HasChallenge
verify_pkce-passes derive challenge method verifier (there, method_ok) given same =
    rw
      (there, ne→==-false verifier "" given, method_ok, (eq_iff (derive verifier) challenge).1 same)
      refl

-- A verifier passes for the flow of a request that `/authorize` does not turn away exactly if it is not
-- empty and its digest is the challenge of the request.
pub verify_pkce_iff :
    (parses : String → Bool) (derive : String → String) (now : ℕ) (q : AuthorizeQuery)
    (verifier : String)
    → authorize_refusal parses q ≡ none
    → let flow = new_flow now q in
      (verify_pkce derive flow.pkce_challenge flow.pkce_method verifier ≡ none)
      ↔ ((verifier ≢ "") × (derive verifier ≡ q.code_challenge))
unfolding new_flow
verify_pkce_iff parses derive now q verifier accepted = (
  λ passes.
      let (_, given, same) =
        verify_pkce-none derive q.code_challenge q.code_challenge_method verifier passes in
      (given, same),
  λ (given, same).
      verify_pkce-passes derive q.code_challenge q.code_challenge_method verifier
        (authorize_refusal-none parses q accepted) given same,
)
