-- ===== src/Store/Sqlite.antt =====
-- server/internal/store/sqlite/audit.go: the audit log in a database, with a hash over each entry and
-- those before it. The table is the list of its rows in the order of their row IDs; SHA-256 in hex and
-- the JSON of an event are arguments. `Append` is two statements with no transaction around them, so other
-- calls can come between; whether each of the two fails is an argument.
pub mod ApiKeys
pub mod Policies
pub mod PolicyLaws
pub mod PolicyCalls
mod PolicyTests
pub mod Chain
pub mod Forks
pub mod Tampering
mod Tests
use Prim.Native.String
use authpilot.Common.{
  ℕ, ◌+◌, String, Bool, true, false, Option, none, some, List, [], ◌∷◌, ◌++◌, ◌==◌, if◌then◌else◌,
  any,
}
use authpilot.Domain.{AuditEvent}
use authpilot.Store.Memory.Ring.{AuditVerifyResult}

-- a row of `audit_log`, less its timestamp, which is a copy of that in the JSON
pub record Row : Type 0 where
  pub id : String
  pub event_json : String
  pub chain_hash : String

module _ (sha256_hex : String → String) where
  -- `auditChainHash`
  unfoldable pub audit_chain_hash : String → String → String
  audit_chain_hash prev_hash event_json = sha256_hex (String.◌++◌ prev_hash event_json)

  -- `SELECT chain_hash … ORDER BY rowid DESC LIMIT 1`, empty for an empty table
  unfoldable pub last_hash : String → List Row → String
  last_hash prev [] = prev
  last_hash prev (row ∷ rows) = last_hash row.chain_hash rows

  -- `INSERT OR IGNORE`: a row whose ID is there is not inserted
  unfoldable pub insert_or_ignore : List Row → Row → List Row
  insert_or_ignore rows row = if any (λ r. r.id == row.id) rows then rows else rows ++ (row ∷ [])

  -- what `prevHash` holds after the SELECT of `Append`, whose error is dropped
  unfoldable pub select_prev_hash : (fails : Bool) → List Row → String
  unfolding last_hash
  select_prev_hash fails rows = if fails then "" else last_hash "" rows

  -- the row that `Append` makes of an event and of what it has selected
  abbrev pub new_row : String → AuditEvent → (text : String) → Row
  new_row prev_hash event text = record {
    id = event.id;
    event_json = text;
    chain_hash = audit_chain_hash prev_hash text;
  }

  -- the INSERT of `Append`, whose error is dropped
  unfoldable pub insert_event : (fails : Bool) → List Row → Row → List Row
  unfolding insert_or_ignore
  insert_event fails rows row = if fails then rows else insert_or_ignore rows row

  -- `Append`, where no other call comes between its two statements; `json` is what `json.Marshal` makes of the
  -- event, if it does
  unfoldable pub append :
      (select_fails insert_fails : Bool)
      → (AuditEvent → Option String)
      → List Row
      → AuditEvent
      → List Row
  unfolding select_prev_hash insert_event
  append select_fails insert_fails json rows event = elim (json event) [
    | none ↦ rows
    | some text ↦
        insert_event insert_fails rows (new_row (select_prev_hash select_fails rows) event text)
  ]

  -- the loop of `Verify`, with `checked` rows behind it and `prev` the hash of the last of them
  unfoldable pub verify_from : ℕ → String → List Row → AuditVerifyResult
  verify_from checked prev [] = record {
    ok = true;
    checked = checked;
    broken_at = "";
    message = "chain intact";
  }
  verify_from checked prev (row ∷ rows) =
      let rest = verify_from (checked + 1) row.chain_hash rows in
      if audit_chain_hash prev row.event_json == row.chain_hash then rest else record {
        ok = false;
        checked = checked;
        broken_at = row.id;
        message = String.◌++◌ "hash mismatch at event " row.id;
      }

  unfoldable pub verify : List Row → AuditVerifyResult
  unfolding verify_from
  verify rows = verify_from 0 "" rows
