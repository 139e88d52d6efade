-- ===== src/Store/Sqlite/Tampering.antt =====
-- What a table that passes the check, with a known last hash, can hold.
use Prim.Native.String
use Prim.Native.String.{String}
use text.Mathlib.TextLemmas.{append_inj}
use Prim.Native.String.{count}
use authpilot.Common.{
  ◌≡◌, ◌≢◌, refl, sym, ap, ◌∙◌, ◌⊎◌, true, List, [], ◌∷◌, arith, ◌==◌, eq_iff, Bool-cases, inl, inr,
  length, ==-false→ne,
}
use authpilot.Store.Sqlite.{Row, audit_chain_hash, last_hash, verify}
use authpilot.Store.Sqlite.Chain.{IsChained, verify_iff}

-- the same events in the same order
abbrev pub SameEvents : List Row → List Row → Type 0
SameEvents [] [] = Unit
SameEvents [] (r ∷ rs) = ⊥
SameEvents (r ∷ rs) [] = ⊥
SameEvents (r ∷ rs) (s ∷ ss) = (r.event_json ≡ s.event_json) × SameEvents rs ss

module _ (sha256_hex : String → String)
    (one_length : (s t : String) → count (sha256_hex s) ≡ count (sha256_hex t)) where
  -- At some row of two tables, with `p` and `q` the hashes before, `verify` hashes two different texts, and they
  -- have one hash.
  abbrev pub Collides : (p q : String) → List Row → List Row → Type 0
  Collides p q [] ss = ⊥
  Collides p q (r ∷ rs) [] = ⊥
  Collides p q (r ∷ rs) (s ∷ ss) =
      ((String.◌++◌ p r.event_json ≢ String.◌++◌ q s.event_json)
        × (sha256_hex (String.◌++◌ p r.event_json) ≡ sha256_hex (String.◌++◌ q s.event_json)))
      ⊎ Collides r.chain_hash s.chain_hash rs ss

  -- one hash of two rows, each after a hash of one length
  same_hash :
      (p q x y : String)
      → count p ≡ count q
      → audit_chain_hash sha256_hex p x ≡ audit_chain_hash sha256_hex q y
      → ((p ≡ q) × (x ≡ y))
        ⊎ ((String.◌++◌ p x ≢ String.◌++◌ q y)
            × (sha256_hex (String.◌++◌ p x) ≡ sha256_hex (String.◌++◌ q y)))
  unfolding audit_chain_hash
  same_hash p q x y long e = elim (Bool-cases (String.◌++◌ p x == String.◌++◌ q y)) [
    | inl same ↦ inl (append_inj ((eq_iff _ (String.◌++◌ q y)).0 same) long)
    | inr differ ↦ inr (==-false→ne _ _ differ, e)
  ]

  same_chain :
      (p q : String) (rs ss : List Row)
      → count p ≡ count q
      → length rs ≡ length ss
      → IsChained sha256_hex p rs
      → IsChained sha256_hex q ss
      → last_hash sha256_hex p rs ≡ last_hash sha256_hex q ss
      → ((p ≡ q) × SameEvents rs ss) ⊎ Collides p q rs ss
  unfolding last_hash audit_chain_hash
  same_chain p q [] [] long h c d e = inl (e, tt)
  same_chain p q [] (s ∷ ss) long h c d e = absurd (omega (arith, h))
  same_chain p q (r ∷ rs) [] long h c d e = absurd (omega (arith, h))
  same_chain p q (r ∷ rs) (s ∷ ss) long h c d e =
      let hashes : count r.chain_hash ≡ count s.chain_hash =
        ap count (sym c.0) ∙ one_length _ _ ∙ ap count d.0 in
      elim (same_chain r.chain_hash s.chain_hash rs ss hashes (omega (arith, h)) c.1 d.1 e) [
        | inr found ↦ inr (inr found)
        | inl (ends, later) ↦
            elim (same_hash p q r.event_json s.event_json long (c.0 ∙ ends ∙ sym d.0)) [
              | inr found ↦ inr (inl found)
              | inl (starts, event) ↦ inl (starts, (event, later))
            ]
      ]

  -- Two tables of one length that both pass the check and end in the same hash hold the same events in the same
  -- order, unless there is a row at which the texts that the check hashes in the two tables differ and have one
  -- hash, if all hashes have one length.
  pub verify-SameEvents :
      (rows tampered : List Row)
      → length rows ≡ length tampered
      → (verify sha256_hex rows).ok ≡ true
      → (verify sha256_hex tampered).ok ≡ true
      → last_hash sha256_hex "" rows ≡ last_hash sha256_hex "" tampered
      → SameEvents rows tampered ⊎ Collides "" "" rows tampered
  verify-SameEvents rows tampered long ok₁ ok₂ ends =
      elim (same_chain "" "" rows tampered refl long ((verify_iff sha256_hex rows).0 ok₁)
        ((verify_iff sha256_hex tampered).0 ok₂) ends) [
          | inr found ↦ inr found
          | inl (_, same) ↦ inl same
        ]
