-- ===== src/Oidc/Grants.antt =====
-- The authorization code grant: what a token response vouches for, and that a code is used up by the
-- first request that presents it. The flows are those of the in-memory store.
use mathlib.Core.Path.{subst}
use authpilot.Common.{
  ℕ, ◌≤◌, String, ◌≡◌, ◌≢◌, refl, sym, ap, ◌∙◌, Bool, none, some, arith, ◌==◌, eq_iff, eq_refl,
  Bool-cases, Option-cases, inl, inr, ◌⊎◌, ne→==-false,
}
use authpilot.Common.GoMap.{lookup}
use authpilot.Common.Text.{trim_space}
use authpilot.Domain.{User, Flow}
use authpilot.Store.{not_found, ok, err, Result-cases, CrudStore, SessionStore}
use authpilot.Store.Memory.Flows as Memory
use authpilot.Store.Memory.Redeem.{
  IsValid, HasUniqueCodes, cleared, consume_auth_code_lem, consume-spent, consume_refused,
}
use authpilot.Flow.{complete, expired_token, normalize_scenario}
use authpilot.Oidc.{
  TokenSet, Issuer, Reply, failed, issued, verify_pkce, grant_refusal, not_redeemed,
}
use authpilot.Oidc.Endpoints.{grant_user, grant_matched, handle_auth_code_grant}
use authpilot.Oidc.Pkce.{verify_pkce-none}

-- what a flow and a request must have in common
pub record IsGrantable (derive : String → String) (now : ℕ) (f : Flow)
    (redirect_uri verifier : String) : Type 0 where
  pub ended : f.state ≡ complete
  pub in_time : now ≤ f.expires_at
  pub same_address : (redirect_uri ≡ "") ⊎ (redirect_uri ≡ f.redirect_uri)
  pub challenged : f.pkce_challenge ≢ ""
  pub proven : derive verifier ≡ f.pkce_challenge

grant_refusal-none :
    (derive : String → String) (now : ℕ) (f : Flow) (redirect_uri verifier : String)
    → grant_refusal derive now f redirect_uri verifier ≡ none
    → IsGrantable derive now f redirect_uri verifier
unfolding grant_refusal
grant_refusal-none derive now f redirect_uri verifier h =
    let unproven : verify_pkce derive f.pkce_challenge f.pkce_method verifier ≡ none =
      ground arith in
    let (there, _, proof) =
      verify_pkce-none derive f.pkce_challenge f.pkce_method verifier unproven in
    record {
      ended = ground (arith, eq_iff f.state complete);
      in_time = ground arith;
      same_address = ground (arith, eq_iff redirect_uri "", eq_iff redirect_uri f.redirect_uri);
      challenged = there;
      proven = proof;
    }

-- a redemption leaves nothing to redeem
redeemed_once :
    (s : Memory.FlowStore) (code : String)
    → IsValid s
    → HasUniqueCodes s.flows
    → let t = (Memory.consume_auth_code s code).0 in
      Memory.consume_auth_code t code ≡ (t, err not_found)
redeemed_once s code v u = elim (Result-cases (Memory.consume_auth_code s code).1) [
  | inl (f, won) ↦ consume-spent s _ code f v u (λ i. ((Memory.consume_auth_code s code).0, won i))
  | inr (e, lost) ↦ let same = consume_refused s code e lost in rw (ap (λ p. p.0) same) same
]

module _ {US SS : Type 0} (users : CrudStore US User) (sessions : SessionStore SS)
    (derive hash : String → String) (parses : String → Bool) where
  abbrev matched_grant : ℕ → ℕ → Issuer → US → SS → Flow → String → String → SS × Reply
  matched_grant = grant_matched Memory.flow_store users sessions derive hash parses

  abbrev pub grant :
      ℕ
      → ℕ
      → Issuer
      → Memory.FlowStore
      → US
      → SS
      → String
      → String
      → String
      → Memory.FlowStore × SS × Reply
  grant = handle_auth_code_grant Memory.flow_store users sessions derive hash parses

  -- the tokens are those of the flow and of its user
  abbrev pub IsIssued : Issuer → US → Flow → TokenSet → Type 0
  IsIssued issuer us f tokens =
      (user : User) × (users.get_by_id us f.user_id ≡ ok user)
      × (issuer.issue (normalize_scenario f.scenario == expired_token) f user ≡ ok tokens)

  grant_matched-issued :
      (now later : ℕ) (issuer : Issuer) (us : US) (ss : SS) (f : Flow)
      (redirect_uri verifier : String) (tokens : TokenSet)
      → (matched_grant now later issuer us ss f redirect_uri verifier).1 ≡ issued tokens
      → IsGrantable derive now f redirect_uri verifier × IsIssued issuer us f tokens
  unfolding grant_matched grant_user
  grant_matched-issued now later issuer us ss f redirect_uri verifier tokens e =
      elim (Option-cases (grant_refusal derive now f redirect_uri verifier)) [
        | inl (reason, refused) ↦ cc (rw (refused, grant_matched) at e)
        | inr passes ↦ elim (Result-cases (users.get_by_id us f.user_id)) [
          | inr (x, unknown) ↦ cc (rw (passes, grant_matched, unknown) at e)
          | inl (user, known) ↦
              elim (Result-cases
                (issuer.issue (normalize_scenario f.scenario == expired_token) f user)) [
                  | inr (x, broken) ↦
                      cc (rw (passes, grant_matched, known, grant_user, broken) at e)
                  | inl (made, works) ↦
                      let same : made ≡ tokens =
                        cc (rw (passes, grant_matched, known, grant_user, works) at e) in
                      (
                        grant_refusal-none derive now f redirect_uri verifier passes,
                        (user, known, works ∙ ap ok same),
                      )
                ]
        ]
      ]

  -- If the code grant answers with tokens, where the stored flows are well formed, then the code was
  -- that of a stored flow which is complete and not expired, the redirect address is absent or that
  -- of the flow, the digest of the verifier is the flow's challenge, which is not empty, the tokens are
  -- those that the issuer makes for the flow and its user, and the flow no longer holds the code.
  pub grant-issued :
      (now later : ℕ) (issuer : Issuer) (fs : Memory.FlowStore) (us : US) (ss : SS)
      (code redirect_uri verifier : String) (tokens : TokenSet)
      → IsValid fs
      → (grant now later issuer fs us ss code redirect_uri verifier).2 ≡ issued tokens
      → (f : Flow) × (lookup f.id fs.flows ≡ some f)
        × (f.auth_code ≡ trim_space code)
        × IsGrantable derive now f (trim_space redirect_uri) (trim_space verifier)
        × IsIssued issuer us f tokens
        × (lookup f.id (grant now later issuer fs us ss code redirect_uri verifier).0.flows
            ≡ some (cleared f))
  unfolding handle_auth_code_grant
  grant-issued now later issuer fs us ss code redirect_uri verifier tokens v e =
      elim (Bool-cases (trim_space code == "")) [
        | inl empty ↦ cc (rw empty at e)
        | inr given ↦ elim (Result-cases (Memory.consume_auth_code fs (trim_space code)).1) [
          | inr (x, refused) ↦ cc (rw (given, refused, handle_auth_code_grant) at e)
          | inl (f, won) ↦
              let fs' = (Memory.consume_auth_code fs (trim_space code)).0 in
              let (stored, held, written) =
                consume_auth_code_lem fs fs' (trim_space code) f v (λ i. (fs', won i)) in
              let (fits, made) =
                grant_matched-issued now later issuer us ss f (trim_space redirect_uri)
                  (trim_space verifier) tokens (rw (given, won, handle_auth_code_grant) at e) in
              (
                f,
                stored,
                held,
                fits,
                made,
                rw (given, won, handle_auth_code_grant) (written f.id ∙ rw (eq_refl f.id) refl),
              )
        ]
      ]

  -- a code that finds a flow which nothing refuses is answered with tokens
  pub grant-grants :
      (now later : ℕ) (issuer : Issuer) (fs : Memory.FlowStore) (us : US) (ss : SS)
      (code redirect_uri verifier : String) (f : Flow) (user : User) (tokens : TokenSet)
      → trim_space code ≢ ""
      → (Memory.consume_auth_code fs (trim_space code)).1 ≡ ok f
      → grant_refusal derive now f (trim_space redirect_uri) (trim_space verifier) ≡ none
      → users.get_by_id us f.user_id ≡ ok user
      → issuer.issue (normalize_scenario f.scenario == expired_token) f user ≡ ok tokens
      → (grant now later issuer fs us ss code redirect_uri verifier).2 ≡ issued tokens
  unfolding handle_auth_code_grant grant_matched grant_user
  grant-grants now later issuer fs us ss code redirect_uri verifier f user tokens given won passes
        known made =
      rw
        (
          ne→==-false (trim_space code) "" given,
          won,
          handle_auth_code_grant,
          passes,
          grant_matched,
          known,
          grant_user,
          made,
        )
        refl

  grant-store :
      (now later : ℕ) (issuer : Issuer) (fs : Memory.FlowStore) (us : US) (ss : SS)
      (code redirect_uri verifier : String)
      → trim_space code ≢ ""
      → (grant now later issuer fs us ss code redirect_uri verifier).0
        ≡ (Memory.consume_auth_code fs (trim_space code)).0
  unfolding handle_auth_code_grant
  grant-store now later issuer fs us ss code redirect_uri verifier given =
      let blank = ne→==-false (trim_space code) "" given in
      elim (Result-cases (Memory.consume_auth_code fs (trim_space code)).1) [
        | inr (x, refused) ↦ rw (blank, refused, handle_auth_code_grant) refl
        | inl (f, won) ↦ rw (blank, won, handle_auth_code_grant) refl
      ]

  grant-spent :
      (now later : ℕ) (issuer : Issuer) (fs : Memory.FlowStore) (us : US) (ss : SS)
      (code redirect_uri verifier : String)
      → trim_space code ≢ ""
      → Memory.consume_auth_code fs (trim_space code) ≡ (fs, err not_found)
      → grant now later issuer fs us ss code redirect_uri verifier ≡ (fs, ss, not_redeemed)
  unfolding handle_auth_code_grant
  grant-spent now later issuer fs us ss code redirect_uri verifier given spent =
      rw (ne→==-false (trim_space code) "" given, ap (λ p. p.1) spent, handle_auth_code_grant)
        (ap (λ p. (p.0, ss, not_redeemed)) spent)

  -- A code that is presented twice is answered the second time as not found or redeemed, whatever the
  -- first answer was and whatever else the requests hold, where the stored flows are well formed and no
  -- two of them share a code.
  pub grant-once :
      (now₁ later₁ now₂ later₂ : ℕ) (issuer₁ issuer₂ : Issuer) (fs : Memory.FlowStore)
      (us₁ us₂ : US) (ss₁ ss₂ : SS) (code redirect₁ redirect₂ verifier₁ verifier₂ : String)
      → IsValid fs
      → HasUniqueCodes fs.flows
      → trim_space code ≢ ""
      → let fs' = (grant now₁ later₁ issuer₁ fs us₁ ss₁ code redirect₁ verifier₁).0 in
        grant now₂ later₂ issuer₂ fs' us₂ ss₂ code redirect₂ verifier₂
        ≡ (fs', ss₂, failed 400 "invalid_grant" "code not found or already redeemed")
  grant-once now₁ later₁ now₂ later₂ issuer₁ issuer₂ fs us₁ us₂ ss₁ ss₂ code redirect₁ redirect₂
        verifier₁ verifier₂ v u given =
      subst
        (λ t. grant now₂ later₂ issuer₂ t us₂ ss₂ code redirect₂ verifier₂ ≡ (t, ss₂, not_redeemed))
        (sym (grant-store now₁ later₁ issuer₁ fs us₁ ss₁ code redirect₁ verifier₁ given))
        (grant-spent now₂ later₂ issuer₂ _ us₂ ss₂ code redirect₂ verifier₂ given
          (redeemed_once fs (trim_space code) v u))
