-- ===== src/Store/Sqlite/Tests.antt =====
-- The theorems about the hash chain, with hashes that can be computed.
use Prim.Native.String
use authpilot.Common.{
  String, ◌≡◌, ◌⊎◌, refl, Bool, true, false, Option, some, List, [], ◌∷◌, length,
}
use authpilot.Domain.{AuditEvent, zero_audit_event}
use authpilot.Store.Sqlite.{Row, audit_chain_hash, last_hash, verify, verify_from}
use authpilot.Store.Sqlite.Chain.{append_all, verify-append_all}
use authpilot.Store.Sqlite.Tampering.{SameEvents, Collides, verify-SameEvents}

abbrev marked : String → String
marked s = String.◌++◌ "#" s

abbrev all_alike : String → String
all_alike s = "00"

abbrev event : String → AuditEvent
event id = record zero_audit_event { id = id }

abbrev json : AuditEvent → Option String
json e = some e.id

-- the INSERT of the second event fails
abbrev three_events : List (Bool × AuditEvent)
three_events = (false, event "a") ∷ (true, event "b") ∷ (false, event "c") ∷ []

verify-append_all_example :
    let rows = append_all marked json [] three_events in
    verify marked rows
    ≡ record { ok = true; checked = length rows; broken_at = ""; message = "chain intact" }
verify-append_all_example = verify-append_all marked json three_events

abbrev rows : List Row
rows = record { id = "a"; event_json = "a"; chain_hash = "00" } ∷ []

abbrev tampered : List Row
tampered = record { id = "a"; event_json = "b"; chain_hash = "00" } ∷ []

verify-SameEvents_example :
    SameEvents rows tampered ⊎ Collides all_alike (λ s t. refl) "" "" rows tampered
unfolding verify verify_from audit_chain_hash last_hash
verify-SameEvents_example =
    verify-SameEvents all_alike (λ s t. refl) rows tampered refl refl refl refl
