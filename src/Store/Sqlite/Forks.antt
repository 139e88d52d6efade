-- ===== src/Store/Sqlite/Forks.antt =====
-- Two calls of `Append` at once.
use mathlib.Core.Path.{subst}
use authpilot.Common.{
  String, ◌≡◌, ◌≢◌, refl, false, List, [], ◌∷◌, ◌++◌, ◌==◌, any, arith, eq_iff, Bool-cases, inl,
  inr,
}
use authpilot.Domain.{AuditEvent}
use authpilot.Store.Sqlite.{
  Row, audit_chain_hash, last_hash, select_prev_hash, insert_or_ignore, insert_event, new_row,
  verify,
}
use authpilot.Store.Sqlite.Chain.{IsChained, verify_iff}

module _ (sha256_hex : String → String) where
  -- `Append` of two events whose SELECTs both come before either INSERT; none fails
  unfoldable pub append_both :
      List Row → (a : AuditEvent) → (x : String) → (b : AuditEvent) → (y : String) → List Row
  append_both rows a x b y =
      let prev_a = select_prev_hash sha256_hex false rows in
      let prev_b = select_prev_hash sha256_hex false rows in
      let rows' = insert_event sha256_hex false rows (new_row sha256_hex prev_a a x) in
      insert_event sha256_hex false rows' (new_row sha256_hex prev_b b y)

  -- the last two rows of a table that is chained
  IsChained-last :
      (prev : String) (rows : List Row) (r s : Row)
      → IsChained sha256_hex prev ((rows ++ (r ∷ [])) ++ (s ∷ []))
      → audit_chain_hash sha256_hex r.chain_hash s.event_json ≡ s.chain_hash
  IsChained-last prev [] r s h = h.1.0
  IsChained-last prev (first ∷ rows) r s h = IsChained-last first.chain_hash rows r s h.1

  any-added :
      (id : String) (rows : List Row) (r : Row)
      → any (λ row. row.id == id) rows ≡ false
      → r.id ≢ id
      → any (λ row. row.id == id) (rows ++ (r ∷ [])) ≡ false
  any-added id [] r none_there other = ground (arith, eq_iff r.id id, other)
  any-added id (first ∷ rows) r none_there other =
      ground (arith, any-added id rows r, none_there, other)

  append_both-table :
      (rows : List Row) (a b : AuditEvent) (x y : String)
      → any (λ row. row.id == a.id) rows ≡ false
      → any (λ row. row.id == b.id) rows ≡ false
      → a.id ≢ b.id
      → append_both rows a x b y
        ≡ (rows ++ (new_row sha256_hex (last_hash sha256_hex "" rows) a x ∷ []))
          ++ (new_row sha256_hex (last_hash sha256_hex "" rows) b y ∷ [])
  unfolding append_both select_prev_hash insert_event insert_or_ignore
  append_both-table rows a b x y new_a new_b differ =
      let last = last_hash sha256_hex "" rows in
      rw new_a (rw (any-added b.id rows (new_row sha256_hex last a x) new_b differ) refl)

  -- Where the SELECTs of two calls of `Append` both come before either INSERT, the events have IDs that differ from
  -- each other and from those in the table, and the hash of the second event over that of the first is not its
  -- hash over the row before the two, the check of the table fails from then on.
  pub append_both-breaks :
      (rows : List Row) (a b : AuditEvent) (x y : String)
      → let last = last_hash sha256_hex "" rows in
        any (λ row. row.id == a.id) rows ≡ false
        → any (λ row. row.id == b.id) rows ≡ false
        → a.id ≢ b.id
        → audit_chain_hash sha256_hex (audit_chain_hash sha256_hex last x) y
          ≢ audit_chain_hash sha256_hex last y
        → (verify sha256_hex (append_both rows a x b y)).ok ≡ false
  append_both-breaks rows a b x y new_a new_b differ no_collision =
      let last = last_hash sha256_hex "" rows in
      let table = append_both-table rows a b x y new_a new_b differ in
      elim (Bool-cases (verify sha256_hex (append_both rows a x b y)).ok) [
        | inr broken ↦ broken
        | inl passed ↦
            let chained = (verify_iff sha256_hex (append_both rows a x b y)).0 passed in
            absurd (
              no_collision (
                IsChained-last "" rows (new_row sha256_hex last a x) (new_row sha256_hex last b y)
                  (subst (IsChained sha256_hex "") table chained)))
      ]
