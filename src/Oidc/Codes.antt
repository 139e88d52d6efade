-- ===== src/Oidc/Codes.antt =====
-- From a finished login to tokens: the code that `/authorize/complete` hands out can be redeemed. The
-- flows are those of the in-memory store.
use mathlib.Core.Path.{subst}
use authpilot.Common.{
  ℕ, ◌≤◌, String, ◌≡◌, ◌≢◌, refl, sym, ap, ◌∙◌, Bool, true, false, none, some, arith, ◌==◌, eq_iff,
  eq_refl, if◌then◌else◌, Bool-cases, inl, inr, ne→==-false,
}
use authpilot.Common.GoMap.{lookup, insert, lookup-insert, Entries-lookup}
use authpilot.Common.Text.{trim_space}
use authpilot.Domain.{User, Flow}
use authpilot.Store.{Result, ok, CrudStore, SessionStore}
use authpilot.Store.Memory.Flows as Memory
use authpilot.Store.Memory.Crud.{flows-IsCrud}
use authpilot.Store.Memory.Redeem.{IsValid, consume_auth_code_lem, consume_complete}
use authpilot.Flow.{complete, expired_token, normalize_scenario}
use authpilot.Oidc.{
  TokenSet, Issuer, Reply, issued, code_redirect, panicked, AuthorizeQuery, authorize_refusal,
  new_flow, verify_pkce, grant_refusal,
}
use authpilot.Oidc.Endpoints.{redirect_with_code, give_code, authorize_complete}
use authpilot.Oidc.Grants.{grant, grant-grants}

-- no stored flow holds the code yet
abbrev pub IsFresh : Memory.FlowStore → String → Type 0
IsFresh fs code = (k : String) (g : Flow) → lookup k fs.flows ≡ some g → g.auth_code ≢ code

abbrev pub with_code : Flow → String → Flow
with_code f code = record f { auth_code = code }

abbrev pub stored_with : Memory.FlowStore → Flow → Memory.FlowStore
stored_with fs f = record fs { flows = insert f.id f fs.flows }

-- a stored flow that is written back is read by its key
update-stored :
    (fs : Memory.FlowStore) (k : String) (f g : Flow)
    → IsValid fs
    → lookup k fs.flows ≡ some f
    → g.id ≡ f.id
    → Memory.update fs g ≡ (stored_with fs g, ok g)
unfolding Memory.update
update-stored fs k f g v stored i =
    let own : f.id ≡ k = Entries-lookup (λ k (x : Flow). x.id ≡ k) k f fs.flows v.own_key stored in
    let there : lookup g.id fs.flows ≡ some f = ap (λ x. lookup x fs.flows) (i ∙ own) ∙ stored in
    rw (there, Memory.update) refl

-- the one flow that holds a code which was fresh before it was written
consume-written :
    (fs : Memory.FlowStore) (k code : String) (f : Flow)
    → IsValid fs
    → lookup k fs.flows ≡ some f
    → IsFresh fs code
    → code ≢ ""
    → (Memory.consume_auth_code (stored_with fs (with_code f code)) code).1 ≡ ok (with_code f code)
consume-written fs k code f v stored fresh given =
    let coded = with_code f code in
    let t = stored_with fs coded in
    let v' : IsValid t =
      subst IsValid (ap (λ p. p.0) (update-stored fs k f coded v stored refl))
        (flows-IsCrud.update-IsValid fs coded v) in
    let there : lookup f.id t.flows ≡ some coded =
      lookup-insert f.id f.id coded fs.flows ∙ rw (eq_refl f.id) refl in
    let (g, won) = consume_complete t code f.id coded given there refl in
    let (held, same_code, _) =
      consume_auth_code_lem t (Memory.consume_auth_code t code).0 code g v'
        (λ i. ((Memory.consume_auth_code t code).0, won i)) in
    let read : (if f.id == g.id then some coded else lookup g.id fs.flows) ≡ some g =
      sym (lookup-insert f.id g.id coded fs.flows) ∙ held in
    elim (Bool-cases (f.id == g.id)) [
      | inl hit ↦ let same : coded ≡ g = cc (rw hit at read) in won ∙ ap ok (sym same)
      | inr miss ↦ absurd (fresh g.id g (rw miss at read) same_code)
    ]

module _ {US SS : Type 0} (users : CrudStore US User) (sessions : SessionStore SS)
    (derive hash : String → String) (parses : String → Bool) where
  abbrev pub finish : Memory.FlowStore → String → Result String → Memory.FlowStore × Reply
  finish = authorize_complete Memory.flow_store users sessions derive hash parses

  -- a finished login stores the code and answers with the redirect
  finish-stores :
      (fs : Memory.FlowStore) (id code : String) (f : Flow)
      → IsValid fs
      → trim_space id ≢ ""
      → lookup (trim_space id) fs.flows ≡ some f
      → f.state ≡ complete
      → f.redirect_uri ≢ ""
      → finish fs id (ok code) ≡ (
        stored_with fs (with_code f code),
        redirect_with_code Memory.flow_store users sessions derive hash parses (with_code f code),
      )
  unfolding authorize_complete give_code Memory.get_by_id
  finish-stores fs id code f v named stored ended addressed =
      let here = ne→==-false (trim_space id) "" named in
      let done : (f.state == complete) ≡ true = (eq_iff f.state complete).1 ended in
      let address = ne→==-false f.redirect_uri "" addressed in
      let written = update-stored fs (trim_space id) f (with_code f code) v stored refl in
      rw
        (
          here,
          stored,
          Memory.get_by_id,
          authorize_complete,
          done,
          address,
          give_code,
          ap (λ p. p.1) written,
        )
        (ap
          (λ p. (
            p.0,
            redirect_with_code Memory.flow_store users sessions derive hash parses
                (with_code f code),
          ))
          written)

  redirects :
      (f : Flow) (code : String)
      → parses f.redirect_uri ≡ true
      → redirect_with_code Memory.flow_store users sessions derive hash parses (with_code f code)
        ≡ code_redirect f.redirect_uri code f.oauth_state
  unfolding redirect_with_code
  redirects f code parsed = rw parsed refl

  panics :
      (f : Flow) (code : String)
      → parses f.redirect_uri ≡ false
      → redirect_with_code Memory.flow_store users sessions derive hash parses (with_code f code)
        ≡ panicked
  unfolding redirect_with_code
  panics f code unparsed = rw unparsed refl

  blank_address : (q : AuthorizeQuery) → authorize_refusal parses q ≡ none → q.redirect_uri ≢ ""
  unfolding authorize_refusal
  blank_address q accepted empty = ground (arith, eq_iff q.redirect_uri "")

  grant_refusal-fits :
      (now : ℕ) (f : Flow) (redirect_uri verifier : String)
      → f.state ≡ complete
      → now ≤ f.expires_at
      → trim_space redirect_uri ≡ f.redirect_uri
      → verify_pkce derive f.pkce_challenge f.pkce_method (trim_space verifier) ≡ none
      → grant_refusal derive now f (trim_space redirect_uri) (trim_space verifier) ≡ none
  unfolding grant_refusal
  grant_refusal-fits now f redirect_uri verifier ended in_time repeated fits =
      ground (arith, eq_iff f.state complete, eq_iff (trim_space redirect_uri) f.redirect_uri)

  -- A finished login of a flow that was begun at `/authorize` is answered with a redirect to the client
  -- with the code, and the code is then redeemed for the tokens of the flow, if the code is fresh, the
  -- address can be parsed and is repeated, the flow has not expired, the verifier fits, the user exists
  -- and the issuer makes tokens.
  pub code-redeems :
      (now later : ℕ) (issuer : Issuer) (fs : Memory.FlowStore) (us : US) (ss : SS)
      (id code redirect_uri verifier : String) (f : Flow) (user : User) (tokens : TokenSet)
      → IsValid fs
      → trim_space id ≢ ""
      → lookup (trim_space id) fs.flows ≡ some f
      → f.state ≡ complete
      → f.redirect_uri ≢ ""
      → parses f.redirect_uri ≡ true
      → IsFresh fs code
      → code ≢ ""
      → trim_space code ≡ code
      → trim_space redirect_uri ≡ f.redirect_uri
      → now ≤ f.expires_at
      → verify_pkce derive f.pkce_challenge f.pkce_method (trim_space verifier) ≡ none
      → users.get_by_id us f.user_id ≡ ok user
      → issuer.issue (normalize_scenario f.scenario == expired_token) (with_code f code) user
        ≡ ok tokens
      → let (fs', reply) = finish fs id (ok code) in
        (reply ≡ code_redirect f.redirect_uri code f.oauth_state)
        × ((grant users sessions derive hash parses now later issuer fs' us ss code redirect_uri
              verifier).2
            ≡ issued tokens)
  code-redeems now later issuer fs us ss id code redirect_uri verifier f user tokens v named stored
        ended addressed parsed fresh given clean repeated in_time fits known made =
      let done = finish-stores fs id code f v named stored ended addressed in
      let won = consume-written fs (trim_space id) code f v stored fresh given in
      let passes =
        grant_refusal-fits now (with_code f code) redirect_uri verifier ended in_time repeated
          fits in
      subst
        (λ p.
          (p.1 ≡ code_redirect f.redirect_uri code f.oauth_state)
          × ((grant users sessions derive hash parses now later issuer p.0 us ss code redirect_uri
                verifier).2
              ≡ issued tokens))
        (sym done)
        (
          redirects f code parsed,
          grant-grants users sessions derive hash parses now later issuer _ us ss code redirect_uri
              verifier (with_code f code) user tokens (λ e. given (sym clean ∙ e))
              (ap (λ c. (Memory.consume_auth_code (stored_with fs (with_code f code)) c).1) clean
                ∙ won)
              passes known made,
        )

  -- An address that cannot be parsed is let through by `/authorize`; a complete flow with that address
  -- makes `/authorize/complete` use a nil pointer, after it has stored the code.
  pub authorize_complete-panics :
      (now : ℕ) (q : AuthorizeQuery) (fs : Memory.FlowStore) (id code : String) (f : Flow)
      → authorize_refusal parses q ≡ none
      → parses q.redirect_uri ≡ false
      → IsValid fs
      → trim_space id ≢ ""
      → lookup (trim_space id) fs.flows ≡ some f
      → f.state ≡ complete
      → f.redirect_uri ≡ (new_flow now q).redirect_uri
      → finish fs id (ok code) ≡ (stored_with fs (with_code f code), panicked)
  unfolding new_flow
  authorize_complete-panics now q fs id code f accepted unparsed v named stored ended begun =
      let addressed : f.redirect_uri ≢ "" = λ empty. blank_address q accepted (sym begun ∙ empty) in
      finish-stores fs id code f v named stored ended addressed
      ∙ ap (λ r. (stored_with fs (with_code f code), r))
          (panics f code (ap parses begun ∙ unparsed))
