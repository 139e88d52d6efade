-- ===== src/Store/Sqlite/Chain.antt =====
-- What `Verify` finds out about the rows.
use mathlib.Core.Bool.{false≢true}
use Prim.Native.String.{String}
use authpilot.Common.{
  ℕ, ◌+◌, String, ◌≡◌, refl, ap, ◌∙◌, ◌↔◌, suc, Bool, true, false, Option, Option-cases, List, [],
  ◌∷◌, ◌++◌, arith, ◌==◌, eq_iff, eq_refl, any, Bool-cases, inl, inr, length,
}
use authpilot.Domain.{AuditEvent}
use authpilot.Store.Memory.Ring.{AuditVerifyResult}
use authpilot.Store.Sqlite.{
  Row, audit_chain_hash, last_hash, select_prev_hash, insert_or_ignore, insert_event, new_row,
  append, verify_from, verify,
}

plus_zero : (n : ℕ) → n + 0 ≡ n
plus_zero n = omega arith

zero_plus : (n : ℕ) → 0 + n ≡ n
zero_plus n = omega arith

plus_one : (n m : ℕ) → n + 1 + m ≡ n + suc m
plus_one n m = omega arith

module _ (sha256_hex : String → String) where
  -- each row holds the hash of its event and of the hash before it
  abbrev pub IsChained : String → List Row → Type 0
  IsChained prev [] = Unit
  IsChained prev (row ∷ rows) =
      (audit_chain_hash sha256_hex prev row.event_json ≡ row.chain_hash)
      × IsChained row.chain_hash rows

  verify_from_sound :
      (n : ℕ) (prev : String) (rows : List Row)
      → (verify_from sha256_hex n prev rows).ok ≡ true
      → IsChained prev rows
  unfolding verify_from
  verify_from_sound n prev [] h = tt
  verify_from_sound n prev (row ∷ rows) h =
      elim (Bool-cases (audit_chain_hash sha256_hex prev row.event_json == row.chain_hash)) [
        | inl hit ↦ (
          (eq_iff _ row.chain_hash).0 hit,
          verify_from_sound (n + 1) row.chain_hash rows (rw hit at h),
        )
        | inr miss ↦ absurd (false≢true (rw miss at h))
      ]

  verify_from_complete :
      (n : ℕ) (prev : String) (rows : List Row)
      → IsChained prev rows
      → verify_from sha256_hex n prev rows
        ≡ record { ok = true; checked = n + length rows; broken_at = ""; message = "chain intact" }
  unfolding verify_from
  verify_from_complete n prev [] h = rw (plus_zero n) refl
  verify_from_complete n prev (row ∷ rows) h =
      rw (h.0, eq_refl row.chain_hash)
        (verify_from_complete (n + 1) row.chain_hash rows h.1 ∙ rw (plus_one n (length rows)) refl)

  IsChained-append :
      (prev : String) (rows : List Row) (row : Row)
      → IsChained prev rows
      → audit_chain_hash sha256_hex (last_hash sha256_hex prev rows) row.event_json ≡ row.chain_hash
      → IsChained prev (rows ++ (row ∷ []))
  unfolding last_hash
  IsChained-append prev [] row h e = (e, tt)
  IsChained-append prev (first ∷ rows) row h e =
      (h.0, IsChained-append first.chain_hash rows row h.1 e)

  -- events that are appended one after the other, with no call between the two statements of another; the
  -- flag says whether the INSERT of the event fails
  unfoldable pub append_all :
      (AuditEvent → Option String) → List Row → List (Bool × AuditEvent) → List Row
  append_all json rows [] = rows
  append_all json rows ((fails, e) ∷ es) =
      append_all json (append sha256_hex false fails json rows e) es

  insert_event-IsChained :
      (fails : Bool) (rows : List Row) (e : AuditEvent) (text : String)
      → IsChained "" rows
      → IsChained "" (
          insert_event sha256_hex fails rows
            (new_row sha256_hex (last_hash sha256_hex "" rows) e text))
  unfolding insert_event insert_or_ignore
  insert_event-IsChained true rows e text h = h
  insert_event-IsChained false rows e text h = elim (Bool-cases (any (λ r. r.id == e.id) rows)) [
    | inl known ↦ rw known h
    | inr unknown ↦ rw unknown (IsChained-append "" rows _ h refl)
  ]

  append-IsChained :
      (fails : Bool) (json : AuditEvent → Option String) (rows : List Row) (e : AuditEvent)
      → IsChained "" rows
      → IsChained "" (append sha256_hex false fails json rows e)
  unfolding append select_prev_hash
  append-IsChained fails json rows e h = elim (Option-cases (json e)) [
    | inr unprintable ↦ rw (unprintable, append) h
    | inl (text, printed) ↦ rw (printed, append) (insert_event-IsChained fails rows e text h)
  ]

  append_all-IsChained :
      (json : AuditEvent → Option String) (rows : List Row) (es : List (Bool × AuditEvent))
      → IsChained "" rows
      → IsChained "" (append_all json rows es)
  unfolding append_all
  append_all-IsChained json rows [] h = h
  append_all-IsChained json rows ((fails, e) ∷ es) h =
      append_all-IsChained json (append sha256_hex false fails json rows e) es
        (append-IsChained fails json rows e h)

  -- After any events have been appended to an empty table one after the other, with no call between the SELECT
  -- and the INSERT of another, the check of the chain succeeds and has seen every row, if no SELECT fails;
  -- an INSERT may fail.
  pub verify-append_all :
      (json : AuditEvent → Option String) (es : List (Bool × AuditEvent))
      → let rows = append_all json [] es in
        verify sha256_hex rows
        ≡ record { ok = true; checked = length rows; broken_at = ""; message = "chain intact" }
  unfolding verify
  verify-append_all json es =
      verify_from_complete 0 "" (append_all json [] es) (append_all-IsChained json [] es tt)
      ∙ rw (zero_plus (length (append_all json [] es))) refl

  -- The check of the chain succeeds exactly if each row holds the hash of its event and of the hash in
  -- the row before it.
  pub verify_iff : (rows : List Row) → ((verify sha256_hex rows).ok ≡ true) ↔ IsChained "" rows
  unfolding verify
  verify_iff rows = (
    verify_from_sound 0 "" rows,
    λ chained. ap (λ (x : AuditVerifyResult). x.ok) (verify_from_complete 0 "" rows chained),
  )
