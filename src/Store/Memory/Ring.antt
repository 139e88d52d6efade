-- ===== src/Store/Memory/Ring.antt =====
-- server/internal/store/memory/audit.go and scimevents.go: logs that keep the latest entries in an
-- array of fixed size. Both have the same fields and the same `Append`; they differ in `List`.
use authpilot.Common.{
  ℕ, zero, suc, ◌+◌, ◌%◌, String, Bool, true, false, not, ◌&&◌, Option, none, some, List, [], ◌∷◌,
  ◌==◌, if◌then◌else◌, ltb, eqb, get_elem?, set, replicate,
}
use authpilot.Domain.{AuditEvent, zero_audit_event, ScimEvent, zero_scim_event}

-- the struct `AuditStore` (`SCIMEventStore`), less the mutex; `cap` is called `capacity`
pub record Ring (A : Type 0) : Type 0 where
  pub buf : List A
  pub capacity : ℕ
  pub head : ℕ
  pub size : ℕ

module _ {A : Type 0} where
  -- `buf: make([]A, cap)` is filled with the zero value
  unfoldable pub make : A → ℕ → Ring A
  make zero_value n = record { buf = replicate n zero_value; capacity = n; head = 0; size = 0 }

  unfoldable pub append : Ring A → A → Ring A
  append s event = record {
    buf = set s.buf s.head event;
    capacity = s.capacity;
    head = (s.head + 1) % s.capacity;
    size = if ltb s.size s.capacity then s.size + 1 else s.size;
  }

  -- `start`, in `List`
  unfoldable pub start_of : Ring A → ℕ
  start_of s = if eqb s.size s.capacity then s.head else 0

  -- `s.buf[(start+i)%s.cap]`; an index out of range is a panic in Go, `none` here
  abbrev pub slot : Ring A → ℕ → Option A
  slot s i = get_elem? s.buf ((start_of s + i) % s.capacity)

  -- one round of the loop of `List`: what a slot holds, before what the later rounds give
  abbrev pub put_front : Option A → Option (List A) → Option (List A)
  put_front (some e) (some es) = some (e ∷ es)
  put_front (some e) none = none
  put_front none _ = none

  -- the loop of `List`, for `rounds` rounds from `i` on; `none` where an index is out of range
  unfoldable pub read_from : Ring A → ℕ → ℕ → Option (List A)
  read_from s i zero = some []
  read_from s i (suc rounds) = put_front (slot s i) (read_from s (suc i) rounds)

abbrev pub default_audit_cap : ℕ
default_audit_cap = 10000

-- `NewAuditStore`; a capacity of 0 stands for every one that is not positive
unfoldable pub new_audit_store : ℕ → Ring AuditEvent
unfolding make
new_audit_store n = make zero_audit_event (if eqb n 0 then default_audit_cap else n)

pub record AuditFilter : Type 0 where
  pub event_type : String
  pub since : ℕ

-- what the two `continue`s let through
unfoldable pub passes : AuditFilter → AuditEvent → Bool
passes filter e =
    if not (filter.event_type == "") && not (e.event_type == filter.event_type)
    then false
    else not (not (eqb filter.since 0) && ltb e.timestamp filter.since)

-- one round of `AuditStore.List`: an event that does not pass is left out
abbrev pub put_passing :
    AuditFilter → Option AuditEvent → Option (List AuditEvent) → Option (List AuditEvent)
put_passing filter none rest = none
put_passing filter (some e) rest = if passes filter e then put_front (some e) rest else rest

-- the loop of `AuditStore.List`, in the same rounds as `read_from`
unfoldable pub list_from : AuditFilter → Ring AuditEvent → ℕ → ℕ → Option (List AuditEvent)
unfolding passes
list_from filter s i zero = some []
list_from filter s i (suc rounds) =
    put_passing filter (slot s i) (list_from filter s (suc i) rounds)

unfoldable pub list_audit : Ring AuditEvent → AuditFilter → Option (List AuditEvent)
unfolding list_from
list_audit s filter = list_from filter s 0 s.size

pub record AuditVerifyResult : Type 0 where
  pub ok : Bool
  pub checked : ℕ
  pub broken_at : String
  pub message : String

unfoldable pub verify : Ring AuditEvent → AuditVerifyResult
verify s = record {
  ok = true;
  checked = s.size;
  broken_at = "";
  message = "in-memory store: no tamper-evident chain";
}

abbrev pub default_scim_event_cap : ℕ
default_scim_event_cap = 10000

-- `NewSCIMEventStore`
unfoldable pub new_scim_event_store : ℕ → Ring ScimEvent
unfolding make
new_scim_event_store n = make zero_scim_event (if eqb n 0 then default_scim_event_cap else n)

-- `SCIMEventStore.List`
unfoldable pub list_scim : Ring ScimEvent → Option (List ScimEvent)
unfolding read_from
list_scim s = read_from s 0 s.size
