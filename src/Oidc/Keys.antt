-- ===== src/Oidc/Keys.antt =====
-- server/internal/oidc/keys.go: the signing keys, their rotation, and the check of tokens. Keys, what the
-- generator and `randomID` give, and the JOSE library are arguments. An entry is a pointer, so it has an
-- address.
use authpilot.Common.{
  ℕ, suc, ◌+◌, ◌*◌, String, Bool, true, false, not, ◌&&◌, Option, none, some, List, [], ◌∷◌,
  if◌then◌else◌, ltb, eqb,
}
use authpilot.Common.GoMap.{GoMap, lookup, insert}
use authpilot.Domain.{Value, Values, num, str, arr, nil, cons}
use authpilot.Domain.Json.{sprint}
use authpilot.Store.{Result, ok, err, Err, failure}
use authpilot.Oidc.{Duration, ahead, behind}
use authpilot.Oidc.Issue.{join, second}

-- a public key as it is published; `Public` is the type of RSA public keys
pub record JsonWebKey (Public : Type 0) : Type 0 where
  pub key : Public
  pub key_id : String
  pub algorithm : String
  pub use_ : String

-- what the JOSE library makes of a token, with `Jws` the parsed tokens
pub record Jose (Public Jws : Type 0) : Type 0 where
  pub parse_signed : String → Option Jws
  pub verify : Jws → JsonWebKey Public → Option String
  -- the map is nil for `null`
  pub unmarshal : String → Result (Option (GoMap Value))

-- the parts of `fmt.Sprint(s)` for the members of a slice
unfoldable pub sprint_all : Values → List String
sprint_all nil = []
sprint_all (cons v vs) = sprint v ∷ sprint_all vs

abbrev pub as_text : Value → Option Value
as_text (arr vs) = some (str (join (sprint_all vs) " "))
as_text _ = none

abbrev pub insert_some : String → Option Value → GoMap Value → GoMap Value
insert_some k none m = m
insert_some k (some v) m = insert k v m

abbrev and_then : Option Value → (Value → Option Value) → Option Value
and_then none f = none
and_then (some v) f = f v

-- a scope that is a slice, as one text
unfoldable pub normalise_scope : GoMap Value → GoMap Value
normalise_scope c = insert_some "scope" (and_then (lookup "scope" c) as_text) c

-- the end of the token in seconds; 0 where the claim is no number
abbrev expiry_claim : Option Value → ℕ
expiry_claim (some (num seconds)) = seconds
expiry_claim _ = 0

unfoldable pub is_current : ℕ → GoMap Value → Bool
is_current now c =
    let expires = expiry_claim (lookup "exp" c) in not (ltb 0 expires && ltb (expires * second) now)

module _ {Private Public : Type 0} (public : Private → Public) where
  pub record KeyEntry : Type 0 where
    pub address : ℕ
    pub private_key : Private
    pub kid : String
    pub public_jwk : JsonWebKey Public
    -- the zero time is `none`
    pub retired_at : Option ℕ

  -- `next` is the address that is allocated next
  pub record KeyManager : Type 0 where
    pub active : Option KeyEntry
    pub keys : List KeyEntry
    pub overlap : ℕ
    pub next : ℕ

  -- what an attempt to rotate draws, and when
  pub record Attempt : Type 0 where
    pub at : ℕ
    pub generated : Result Private
    pub random : Result String

  abbrev new_entry : ℕ → Private → String → KeyEntry
  new_entry address private_key kid = record {
    address = address;
    private_key = private_key;
    kid = kid;
    public_jwk = record {
      key = public private_key;
      key_id = kid;
      algorithm = "RS256";
      use_ = "sig";
    };
    retired_at = none;
  }

  -- the write through the pointer to the active key, as the list of the keys sees it
  unfoldable pub retire : ℕ → ℕ → List KeyEntry → List KeyEntry
  retire now address [] = []
  retire now address (k ∷ keys) =
      let rest = retire now address keys in
      if eqb k.address address then record k { retired_at = some now } ∷ rest else k ∷ rest

  abbrev pub retire_active : ℕ → Option KeyEntry → List KeyEntry → List KeyEntry
  retire_active now none keys = keys
  retire_active now (some entry) keys = retire now entry.address keys

  -- `k.retiredAt.IsZero() || now.Sub(k.retiredAt) < km.overlap`
  abbrev pub is_published : ℕ → ℕ → Option ℕ → Bool
  is_published now overlap none = true
  is_published now overlap (some retired) = ltb now (retired + overlap)

  unfoldable pub prune : ℕ → ℕ → List KeyEntry → List KeyEntry
  prune now overlap [] = []
  prune now overlap (k ∷ keys) =
      let rest = prune now overlap keys in
      if is_published now overlap k.retired_at then k ∷ rest else rest

  -- `Rotate`, from where both random values are drawn
  unfoldable pub rotated_to : ℕ → Private → String → KeyManager → KeyManager
  unfolding retire prune
  rotated_to now private_key kid km =
      let entry = new_entry km.next private_key kid in
      record km {
        active = some entry;
        keys = entry ∷ prune now km.overlap (retire_active now km.active km.keys);
        next = suc km.next;
      }

  -- `Rotate`
  unfoldable pub rotate : Attempt → KeyManager → KeyManager × Option Err
  rotate attempt km = elim attempt.generated [
    | err e ↦ (km, some e)
    | ok private_key ↦ elim attempt.random [
      | err e ↦ (km, some e)
      | ok kid ↦ (rotated_to attempt.at private_key kid km, none)
    ]
  ]

  abbrev not_negative : Duration → ℕ
  not_negative (ahead d) = d
  not_negative (behind d) = 0

  abbrev pub no_keys : Duration → KeyManager
  no_keys overlap = record { active = none; keys = []; overlap = not_negative overlap; next = 0 }

  -- `NewKeyManagerWithOverlap`
  unfoldable pub new_key_manager : Duration → Attempt → Result KeyManager
  unfolding rotate
  new_key_manager overlap attempt =
      let (km, failed) = rotate attempt (no_keys overlap) in
      elim failed [ none ↦ ok km | some e ↦ err e ]

  -- `StartRotation`: what the ticks do, in their order
  unfoldable pub rotate_all : List Attempt → KeyManager → KeyManager
  unfolding rotate
  rotate_all [] km = km
  rotate_all (attempt ∷ attempts) km = rotate_all attempts (rotate attempt km).0

  -- `Signer`: the key that signs and the ID that its tokens carry
  unfoldable pub signer : KeyManager → Result (Private × String)
  signer km = elim km.active [
    | none ↦ err (failure "no active signing key")
    | some entry ↦ ok (entry.private_key, entry.kid)
  ]

  -- `JWKS`
  unfoldable pub jwks : List KeyEntry → List (JsonWebKey Public)
  jwks [] = []
  jwks (k ∷ keys) = k.public_jwk ∷ jwks keys

  module _ {Jws : Type 0} (jose : Jose Public Jws) where
    -- the loop over the published keys
    unfoldable pub verified_payload : Jws → List (JsonWebKey Public) → Option String
    verified_payload jws [] = none
    verified_payload jws (k ∷ keys) = elim (jose.verify jws k) [
      | some payload ↦ some payload
      | none ↦ verified_payload jws keys
    ]

    abbrev pub judged : ℕ → Result (Option (GoMap Value)) → Result (Option (GoMap Value) × Bool)
    judged now (err e) = err e
    judged now (ok none) = ok (none, true)
    judged now (ok (some c)) = ok (some (normalise_scope c), is_current now c)

    -- `VerifyJWT`
    unfoldable pub verify_jwt : ℕ → KeyManager → String → Result (Option (GoMap Value) × Bool)
    unfolding is_current normalise_scope verified_payload jwks
    verify_jwt now km token = elim (jose.parse_signed token) [
      | none ↦ ok (none, false)
      | some jws ↦ elim (verified_payload jws (jwks km.keys)) [
        | none ↦ ok (none, false)
        | some payload ↦ judged now (jose.unmarshal payload)
      ]
    ]
