-- ===== src/Oidc/Rotation.antt =====
-- The refresh grant: a refresh token works once, and is replaced by the one that it buys. The sessions
-- are those of the in-memory store.
use authpilot.Common.{
  ℕ, ◌≤◌, String, ◌≡◌, ◌≢◌, refl, sym, ap, ◌∙◌, Bool, false, some, ◌==◌, eq_iff, eq_refl,
  if◌then◌else◌, Bool-cases, inl, inr, ltb, ltb-false,
}
use authpilot.Common.GoMap.{
  lookup, insert, lookup-insert, insert-HasUniqueKeys, Entries-lookup, Entries-self,
}
use authpilot.Common.Text.{trim_space}
use authpilot.Domain.{User, Session}
use authpilot.Store.{not_found, ok, err, Result-cases, CrudStore, FlowStore}
use authpilot.Store.Memory.Sessions as Memory
use authpilot.Store.Memory.Laws.{IsKeyed}
use authpilot.Store.Memory.Tokens.{
  first_with_token-none, first_with_token-only, first_with_token_sound,
}
use authpilot.Oidc.{TokenSet, Issuer, Reply, issued, rotated, synthetic_flow}
use authpilot.Oidc.Endpoints.{refresh_user, handle_refresh_grant}

abbrev pub IsValid : Memory.SessionStore → Type 0
IsValid = IsKeyed (λ (x : Session). x.id) Memory.crud (λ s. s.sessions)

-- No two sessions hold one refresh token.
abbrev pub HasUniqueTokens : Memory.SessionStore → Type 0
HasUniqueTokens s =
    (k j : String) (v w : Session)
    → lookup k s.sessions ≡ some v
    → lookup j s.sessions ≡ some w
    → v.refresh_token ≡ w.refresh_token
    → k ≡ j

-- No session holds the token.
abbrev pub IsUnused : Memory.SessionStore → String → Type 0
IsUnused s token =
    (k : String) (v : Session) → lookup k s.sessions ≡ some v → v.refresh_token ≢ token

abbrev pub stored_with : Memory.SessionStore → Session → Memory.SessionStore
stored_with s session = record s { sessions = insert session.id session s.sessions }

-- a session that takes another token in place of the one that found it
module _ (s : Memory.SessionStore) (old new : String) (session next : Session) (v : IsValid s)
    (unique : HasUniqueTokens s) (unused : IsUnused s new)
    (found_by : Memory.get_by_refresh_token s old ≡ ok session) (same_id : next.id ≡ session.id)
    (holds : next.refresh_token ≡ new) where
  origin : (k : String) × (lookup k s.sessions ≡ some session) × (session.refresh_token ≡ old)
  unfolding Memory.get_by_refresh_token
  origin =
      first_with_token_sound old s.sessions s.sessions session (Entries-self s.sessions v.unique)
        found_by

  differ : new ≢ old
  differ e = unused origin.0 session origin.1 (origin.2 ∙ sym e)

  own_key : next.id ≡ origin.0
  own_key =
      same_id
      ∙ Entries-lookup (λ k (x : Session). x.id ≡ k) origin.0 session s.sessions v.own_key origin.1

  read :
      (k : String)
      → lookup k (stored_with s next).sessions
        ≡ (if next.id == k then some next else lookup k s.sessions)
  read k = lookup-insert next.id k next s.sessions

  update-stored : Memory.update s next ≡ (stored_with s next, ok next)
  unfolding Memory.update
  update-stored = rw (ap (λ x. lookup x s.sessions) own_key ∙ origin.1, Memory.update) refl

  old_spent :
      (k : String) (w : Session)
      → lookup k (stored_with s next).sessions ≡ some w
      → w.refresh_token ≢ old
  old_spent k w at_k bad = elim (Bool-cases (next.id == k)) [
    | inl hit ↦
        let same : next ≡ w = cc (rw hit at (sym (read k) ∙ at_k)) in
        differ (sym holds ∙ ap (λ (x : Session). x.refresh_token) same ∙ bad)
    | inr miss ↦
        let kept : lookup k s.sessions ≡ some w = rw miss at (sym (read k) ∙ at_k) in
        let same_key = unique k origin.0 w session kept origin.1 (bad ∙ sym origin.2) in
        cc (miss, (eq_iff next.id k).1 (own_key ∙ sym same_key))
  ]

  new_alone :
      (k : String) (w : Session)
      → lookup k (stored_with s next).sessions ≡ some w
      → w.refresh_token ≡ new
      → k ≡ next.id
  new_alone k w at_k same_token = elim (Bool-cases (next.id == k)) [
    | inl hit ↦ sym ((eq_iff next.id k).0 hit)
    | inr miss ↦ absurd (unused k w (rw miss at (sym (read k) ∙ at_k)) same_token)
  ]

  pub swap :
      (Memory.update s next ≡ (stored_with s next, ok next))
      × (Memory.get_by_refresh_token (stored_with s next) old ≡ err not_found)
      × (Memory.get_by_refresh_token (stored_with s next) new ≡ ok next)
  unfolding Memory.get_by_refresh_token
  swap =
      let keys = insert-HasUniqueKeys next.id next s.sessions v.unique in
      (
        update-stored,
        first_with_token-none old (stored_with s next).sessions keys old_spent,
        first_with_token-only new (stored_with s next).sessions next.id next keys
            (read next.id ∙ rw (eq_refl next.id) refl) holds new_alone,
      )

rotated-id :
    (hash : String → String) (now : ℕ) (issuer : Issuer) (session : Session) (tokens : TokenSet)
    → (rotated hash now issuer session tokens).id ≡ session.id
unfolding rotated
rotated-id hash now issuer session tokens = refl

rotated-token :
    (hash : String → String) (now : ℕ) (issuer : Issuer) (session : Session) (tokens : TokenSet)
    → (rotated hash now issuer session tokens).refresh_token ≡ hash tokens.refresh_token
unfolding rotated
rotated-token hash now issuer session tokens = refl

module _ {FS US : Type 0} (flows : FlowStore FS) (users : CrudStore US User)
    (derive hash : String → String) (parses : String → Bool) where
  abbrev pub refresh :
      ℕ → ℕ → Issuer → US → Memory.SessionStore → String → Memory.SessionStore × Reply
  refresh = handle_refresh_grant flows users Memory.session_store derive hash parses

  -- what an answer with tokens has come through
  refresh-issued :
      (now later : ℕ) (issuer : Issuer) (us : US) (ss : Memory.SessionStore) (token : String)
      (tokens : TokenSet)
      → (refresh now later issuer us ss token).1 ≡ issued tokens
      → (session : Session) × (Memory.get_by_refresh_token ss (hash (trim_space token))
          ≡ ok session)
        × (ltb session.expires_at now ≡ false)
        × ((refresh now later issuer us ss token).0
            ≡ (Memory.update ss (rotated hash later issuer session tokens)).0)
  unfolding handle_refresh_grant refresh_user
  refresh-issued now later issuer us ss token tokens e =
      elim (Bool-cases (trim_space token == "")) [
        | inl empty ↦ cc (rw empty at e)
        | inr given ↦
            elim (Result-cases (Memory.get_by_refresh_token ss (hash (trim_space token)))) [
              | inr (x, unknown) ↦ cc (rw (given, unknown, handle_refresh_grant) at e)
              | inl (session, found) ↦ elim (Bool-cases (ltb session.expires_at now)) [
                | inl late ↦ cc (rw (given, found, handle_refresh_grant, late) at e)
                | inr in_time ↦ elim (Result-cases (users.get_by_id us session.user_id)) [
                  | inr (x, nobody) ↦
                      cc (rw (given, found, handle_refresh_grant, in_time, nobody) at e)
                  | inl (user, known) ↦
                      elim (Result-cases (issuer.issue false (synthetic_flow session) user)) [
                        | inr (x, broken) ↦ cc (
                            rw
                              (
                                given, found, handle_refresh_grant, in_time, known, refresh_user,
                                broken,
                              )
                              at e)
                        | inl (made, works) ↦
                            let same : made ≡ tokens = cc (
                              rw
                                (
                                  given, found, handle_refresh_grant, in_time, known, refresh_user,
                                  works,
                                )
                                at e) in
                            (
                              session,
                              found,
                              in_time,
                              rw
                                  (
                                    given, found, handle_refresh_grant, in_time, known,
                                    refresh_user, works,
                                  )
                                  (ap
                                    (λ t.
                                      (Memory.update ss (rotated hash later issuer session t)).0)
                                    same),
                            )
                      ]
                ]
              ]
            ]
      ]

  -- If the refresh grant answers with tokens, where the stored sessions are well formed, no two of them
  -- hold one token and the new token is not held by any, then the token belonged to a session that had
  -- not expired; afterwards the old token finds no session, and the new one finds that session, renewed.
  pub refresh-rotates :
      (now later : ℕ) (issuer : Issuer) (us : US) (ss : Memory.SessionStore) (token : String)
      (tokens : TokenSet)
      → IsValid ss
      → HasUniqueTokens ss
      → IsUnused ss (hash tokens.refresh_token)
      → (refresh now later issuer us ss token).1 ≡ issued tokens
      → let ss' = (refresh now later issuer us ss token).0 in
        (session : Session) × (Memory.get_by_refresh_token ss (hash (trim_space token))
          ≡ ok session)
        × (now ≤ session.expires_at)
        × (Memory.get_by_refresh_token ss' (hash (trim_space token)) ≡ err not_found)
        × (Memory.get_by_refresh_token ss' (hash tokens.refresh_token)
            ≡ ok (rotated hash later issuer session tokens))
  refresh-rotates now later issuer us ss token tokens v unique unused e =
      let old = hash (trim_space token) in
      let new = hash tokens.refresh_token in
      let (session, found, in_time, written) =
        refresh-issued now later issuer us ss token tokens e in
      let next = rotated hash later issuer session tokens in
      let (stored, spent, works) =
        swap ss old new session next v unique unused found
          (rotated-id hash later issuer session tokens)
          (rotated-token hash later issuer session tokens) in
      let after = written ∙ ap (λ p. p.0) stored in
      (
        session,
        found,
        ltb-false session.expires_at now in_time,
        ap (λ s. Memory.get_by_refresh_token s old) after ∙ spent,
        ap (λ s. Memory.get_by_refresh_token s new) after ∙ works,
      )
