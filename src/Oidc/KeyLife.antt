-- ===== src/Oidc/KeyLife.antt =====
-- What the rotation of the keys leaves in force.
use authpilot.Common.{
  ℕ, ◌+◌, ◌*◌, ◌≤◌, ◌<◌, String, true, ◌≡◌, ◌⊎◌, inl, inr, refl, ap, Option, none, some, List, [],
  ◌∷◌, All, arith, Option-cases,
}
use authpilot.Common.GoMap.{GoMap, lookup}
use authpilot.Domain.{Value, num}
use authpilot.Store.{ok, Result-cases}
use authpilot.Oidc.{Duration}
use authpilot.Oidc.Issue.{second}
use authpilot.Oidc.Keys.{
  JsonWebKey, Jose, KeyEntry, KeyManager, Attempt, retire, retire_active, prune, is_published,
  rotated_to, rotate, rotate_all, no_keys, jwks, verified_payload, verify_jwt, normalise_scope,
  is_current,
}

is_current-exp :
    (now e : ℕ) (c : GoMap Value)
    → lookup "exp" c ≡ some (num e)
    → now ≤ e * second
    → is_current now c ≡ true
unfolding is_current
is_current-exp now e c h le = rw h (ground arith)

module _ {Private Public : Type 0} (public : Private → Public) where
  -- not retired before a time
  abbrev IsRetiredFrom : ℕ → Option ℕ → Type 0
  IsRetiredFrom since none = Unit
  IsRetiredFrom since (some retired) = since ≤ retired

  -- some entry publishes the key and was not retired before the time
  abbrev Holds : JsonWebKey Public → ℕ → List (KeyEntry public) → Type 0
  Holds jwk since [] = ⊥
  Holds jwk since (k ∷ keys) =
      ((k.public_jwk ≡ jwk) × IsRetiredFrom since k.retired_at) ⊎ Holds jwk since keys

  retire-Holds :
      (jwk : JsonWebKey Public) (since now address : ℕ) (keys : List (KeyEntry public))
      → since ≤ now
      → Holds jwk since keys
      → Holds jwk since (retire public now address keys)
  unfolding retire
  retire-Holds jwk since now address [] le h = elim h [ ]
  retire-Holds jwk since now address (k ∷ keys) le h =
      ground (arith, h, retire-Holds jwk since now address keys le)

  is_published-IsRetiredFrom :
      (since now overlap : ℕ) (retired : Option ℕ)
      → now < since + overlap
      → IsRetiredFrom since retired
      → is_published public now overlap retired ≡ true
  is_published-IsRetiredFrom since now overlap none lt h = refl
  is_published-IsRetiredFrom since now overlap (some retired) lt h = ground arith

  prune-Holds :
      (jwk : JsonWebKey Public) (since now overlap : ℕ) (keys : List (KeyEntry public))
      → now < since + overlap
      → Holds jwk since keys
      → Holds jwk since (prune public now overlap keys)
  unfolding prune
  prune-Holds jwk since now overlap [] lt h = elim h [ ]
  prune-Holds jwk since now overlap (k ∷ keys) lt (inl h) =
      rw (is_published-IsRetiredFrom since now overlap k.retired_at lt h.1) (inl h)
  prune-Holds jwk since now overlap (k ∷ keys) lt (inr h) =
      ground (arith, prune-Holds jwk since now overlap keys lt h)

  retire_active-Holds :
      (jwk : JsonWebKey Public) (since now : ℕ) (active : Option (KeyEntry public))
      (keys : List (KeyEntry public))
      → since ≤ now
      → Holds jwk since keys
      → Holds jwk since (retire_active public now active keys)
  retire_active-Holds jwk since now none keys le h = h
  retire_active-Holds jwk since now (some entry) keys le h =
      retire-Holds jwk since now entry.address keys le h

  rotate-Holds :
      (jwk : JsonWebKey Public) (since : ℕ) (attempt : Attempt public) (km : KeyManager public)
      → since ≤ attempt.at
      → attempt.at < since + km.overlap
      → Holds jwk since km.keys
      → Holds jwk since (rotate public attempt km).0.keys
        × ((rotate public attempt km).0.overlap ≡ km.overlap)
  unfolding rotate rotated_to
  rotate-Holds jwk since attempt km from lt h = elim (Result-cases attempt.generated) [
    | inr (x, failed) ↦ rw failed (h, refl)
    | inl (private_key, made) ↦ elim (Result-cases attempt.random) [
      | inr (x, failed) ↦ rw made (rw failed (h, refl))
      | inl (kid, drawn) ↦ rw made (
          rw drawn (
            inr (
                prune-Holds jwk since attempt.at km.overlap _ lt
                  (retire_active-Holds jwk since attempt.at km.active km.keys from h)),
            refl,
          ))
    ]
  ]

  -- a time between two times
  abbrev pub IsBetween : ℕ → ℕ → Attempt public → Type 0
  IsBetween since until attempt = (since ≤ attempt.at) × (attempt.at ≤ until)

  rotate_all-Holds :
      (jwk : JsonWebKey Public) (since until : ℕ) (attempts : List (Attempt public))
      (km : KeyManager public)
      → All (IsBetween since until) attempts
      → until < since + km.overlap
      → Holds jwk since km.keys
      → Holds jwk since (rotate_all public attempts km).keys
  unfolding rotate_all
  rotate_all-Holds jwk since until [] km times lt h = h
  rotate_all-Holds jwk since until (attempt ∷ attempts) km times lt h =
      let (held, same) =
        rotate-Holds jwk since attempt km times.0.0 (omega (arith, times.0.1, lt)) h in
      rotate_all-Holds jwk since until attempts (rotate public attempt km).0 times.1 (rw same lt)
        held

  abbrev jwk_of : KeyEntry public → Option (KeyEntry public) → JsonWebKey Public
  jwk_of k none = k.public_jwk
  jwk_of k (some entry) = entry.public_jwk

  -- The active key heads the list of the keys and is not retired.
  abbrev pub IsHead : Option (KeyEntry public) → List (KeyEntry public) → Type 0
  IsHead none keys = Unit
  IsHead (some entry) keys =
      (rest : List (KeyEntry public)) × (keys ≡ entry ∷ rest) × (entry.retired_at ≡ none)

  rotate-IsHead :
      (attempt : Attempt public) (km : KeyManager public)
      → IsHead km.active km.keys
      → IsHead (rotate public attempt km).0.active (rotate public attempt km).0.keys
  unfolding rotate rotated_to
  rotate-IsHead attempt km h = elim (Result-cases attempt.generated) [
    | inr (x, failed) ↦ rw failed h
    | inl (private_key, made) ↦ elim (Result-cases attempt.random) [
      | inr (x, failed) ↦ rw made (rw failed h)
      | inl (kid, drawn) ↦ rw made (rw drawn (_, refl, refl))
    ]
  ]

  rotate_all-IsHead :
      (attempts : List (Attempt public)) (km : KeyManager public)
      → IsHead km.active km.keys
      → IsHead (rotate_all public attempts km).active (rotate_all public attempts km).keys
  unfolding rotate_all
  rotate_all-IsHead [] km h = h
  rotate_all-IsHead (attempt ∷ attempts) km h =
      rotate_all-IsHead attempts (rotate public attempt km).0 (rotate-IsHead attempt km h)

  IsHead-Holds :
      (since : ℕ) (active : Option (KeyEntry public)) (keys : List (KeyEntry public))
      (entry : KeyEntry public)
      → active ≡ some entry
      → IsHead active keys
      → Holds entry.public_jwk since keys
  IsHead-Holds since none keys entry e h = cc
  IsHead-Holds since (some k) keys entry e (rest, all, unretired) =
      rw all (inl (ap (λ o. jwk_of k o) e, rw unretired tt))

  module _ {Jws : Type 0} (jose : Jose Public Jws) where
    verified_payload-Holds :
        (jws : Jws) (payload : String) (jwk : JsonWebKey Public) (since : ℕ)
        (keys : List (KeyEntry public))
        → ((k : JsonWebKey Public) (p : String) → jose.verify jws k ≡ some p → p ≡ payload)
        → jose.verify jws jwk ≡ some payload
        → Holds jwk since keys
        → verified_payload public jose jws (jwks public keys) ≡ some payload
    unfolding verified_payload jwks
    verified_payload-Holds jws payload jwk since [] one signed h = elim h [ ]
    verified_payload-Holds jws payload jwk since (k ∷ keys) one signed h =
        elim (Option-cases (jose.verify jws k.public_jwk)) [
          | inl (p, passed) ↦ rw passed (rw (one k.public_jwk p passed) refl)
          | inr refused ↦ elim h [
            | inl here ↦ cc
            | inr later ↦
                rw refused (verified_payload-Holds jws payload jwk since keys one signed later)
          ]
        ]

    verify_jwt-payload :
        (now : ℕ) (km : KeyManager public) (token : String) (jws : Jws) (payload : String)
        (c : GoMap Value)
        → jose.parse_signed token ≡ some jws
        → verified_payload public jose jws (jwks public km.keys) ≡ some payload
        → jose.unmarshal payload ≡ ok (some c)
        → is_current now c ≡ true
        → verify_jwt public jose now km token ≡ ok (some (normalise_scope c), true)
    unfolding verify_jwt
    verify_jwt-payload now km token jws payload c parsed found read current =
        rw (verify_jwt, parsed) (rw found (rw read (rw current refl)))

    -- A token that the active key signs stays active until it expires, through any rotations of the keys and
    -- failed attempts at one after the signing, if they come within the overlap after the signing; and so
    -- whatever rotations came before. The JOSE library verifies the token by that key, and its payload is
    -- the same by any key that verifies it.
    pub verify_jwt-rotate_all :
        (overlap : Duration) (earlier later : List (Attempt public)) (entry : KeyEntry public)
        (signed_at now expires : ℕ) (token : String) (jws : Jws) (payload : String)
        (c : GoMap Value)
        → let km = rotate_all public earlier (no_keys public overlap) in
          km.active ≡ some entry
          → All (IsBetween signed_at now) later
          → now < signed_at + km.overlap
          → jose.parse_signed token ≡ some jws
          → jose.verify jws entry.public_jwk ≡ some payload
          → ((k : JsonWebKey Public) (p : String) → jose.verify jws k ≡ some p → p ≡ payload)
          → jose.unmarshal payload ≡ ok (some c)
          → lookup "exp" c ≡ some (num expires)
          → now ≤ expires * second
          → verify_jwt public jose now (rotate_all public later km) token
            ≡ ok (some (normalise_scope c), true)
    verify_jwt-rotate_all overlap earlier later entry signed_at now expires token jws payload c
          active times within parsed signed one read exp current =
        let km = rotate_all public earlier (no_keys public overlap) in
        let head = rotate_all-IsHead earlier (no_keys public overlap) tt in
        let held =
          rotate_all-Holds entry.public_jwk signed_at now later km times within
            (IsHead-Holds signed_at km.active km.keys entry active head) in
        let found =
          verified_payload-Holds jws payload entry.public_jwk signed_at _ one signed held in
        verify_jwt-payload now (rotate_all public later km) token jws payload c parsed found read
          (is_current-exp now expires c exp current)
