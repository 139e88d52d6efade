-- ===== src/Store/Tenanted/Audit.antt =====
-- server/internal/store/tenanted: the audit log of one tenant. The tenants share one log; an event
-- carries the name of its tenant in its metadata.
use authpilot.Common.{
  ℕ, zero, suc, ◌-◌, ◌&&◌, length, arith, String, ◌≡◌, refl, ap, ◌∙◌, Bool, false, Option, none,
  some, List, [], ◌∷◌, ◌==◌, eqb, if◌then◌else◌, keep,
}
use authpilot.Common.GoMap.{lookup, insert, lookup-insert}
use authpilot.Domain.{Value, str, AuditEvent}
use authpilot.Store.Memory.Ring.{
  Ring, append, AuditFilter, passes, list_audit, new_audit_store, default_audit_cap,
}
use authpilot.Store.Memory.RingHistory.{append_all, drop, last_n, list_audit-append_all}

-- `store.AuditStore`
pub record AuditStore (S : Type 0) : Type 0 where
  pub append : S → AuditEvent → S
  pub list : S → AuditFilter → Option (List AuditEvent)

-- `event.Metadata["tenant_id"] = s.tenantID`
unfoldable pub stamp : String → AuditEvent → AuditEvent
stamp tenant_id event = record event {
  metadata = insert "tenant_id" (str tenant_id) event.metadata;
}

-- `tid, ok := v.(string); ok && tid == s.tenantID`, for what the map holds
abbrev pub names : String → Option Value → Bool
names tenant_id (some (str tid)) = tid == tenant_id
names tenant_id _ = false

unfoldable pub is_own : String → AuditEvent → Bool
is_own tenant_id e = names tenant_id (lookup "tenant_id" e.metadata)

abbrev pub own_events : String → Option (List AuditEvent) → Option (List AuditEvent)
own_events tenant_id none = none
own_events tenant_id (some all) = some (keep (is_own tenant_id) all)

-- the methods of the tenant's log
unfoldable pub audit_store : {S : Type 0} → AuditStore S → String → AuditStore S
audit_store inner tenant_id = record {
  append = λ s event. inner.append s (stamp tenant_id event);
  list = λ s filter. own_events tenant_id (inner.list s filter);
}

-- the in-memory log, as the interface that the wrapper uses
abbrev pub memory_audit : AuditStore (Ring AuditEvent)
memory_audit = record { append = append; list = list_audit }

-- events that the named tenants append, one after the other
unfoldable pub append_each : Ring AuditEvent → List (String × AuditEvent) → Ring AuditEvent
append_each s [] = s
append_each s ((t, e) ∷ es) = append_each ((audit_store memory_audit t).append s e) es

abbrev pub stamped : List (String × AuditEvent) → List AuditEvent
stamped [] = []
stamped ((t, e) ∷ es) = stamp t e ∷ stamped es

append_each-stamped :
    (s : Ring AuditEvent) (es : List (String × AuditEvent))
    → append_each s es ≡ append_all s (stamped es)
unfolding append_each append_all audit_store
append_each-stamped s [] = refl
append_each-stamped s ((t, e) ∷ es) = append_each-stamped (append s (stamp t e)) es

-- An event that the tenant `t` appends counts as an event of `u` exactly if `u` is `t`, whatever
-- tenant the event named before.
pub is_own-stamp : (t u : String) (e : AuditEvent) → is_own u (stamp t e) ≡ (t == u)
unfolding is_own stamp
is_own-stamp t u e = ap (names u) (lookup-insert "tenant_id" "tenant_id" (str t) e.metadata)

-- the event with the name of a tenant in its metadata
abbrev pub named : String → AuditEvent → AuditEvent
named t e = record e { metadata = insert "tenant_id" (str t) e.metadata }

-- what a tenant is to be shown of appended events, each with the tenant that appended it
unfoldable pub shown_to : String → AuditFilter → List (String × AuditEvent) → List AuditEvent
shown_to u filter [] = []
shown_to u filter ((t, e) ∷ es) =
    let rest = shown_to u filter es in
    if (t == u) && passes filter e then named t e ∷ rest else rest

stamp-passes :
    (filter : AuditFilter) (t : String) (e : AuditEvent)
    → passes filter (stamp t e) ≡ passes filter e
unfolding passes stamp
stamp-passes filter t e = refl

stamp-named : (t : String) (e : AuditEvent) → stamp t e ≡ named t e
unfolding stamp
stamp-named t e = refl

keep-stamped :
    (u : String) (filter : AuditFilter) (es : List (String × AuditEvent))
    → keep (is_own u) (keep (passes filter) (stamped es)) ≡ shown_to u filter es
unfolding shown_to
keep-stamped u filter [] = refl
keep-stamped u filter ((t, e) ∷ es) =
    ground (
      arith,
      keep-stamped u filter es,
      is_own-stamp t u e,
      stamp-passes filter t e,
      stamp-named t e,
    )

length-stamped : (es : List (String × AuditEvent)) → length (stamped es) ≡ length es
length-stamped [] = refl
length-stamped ((t, e) ∷ es) = ap suc (length-stamped es)

drop-stamped : (n : ℕ) (es : List (String × AuditEvent)) → drop n (stamped es) ≡ stamped (drop n es)
drop-stamped zero es = refl
drop-stamped (suc n) [] = refl
drop-stamped (suc n) ((t, e) ∷ es) = drop-stamped n es

-- After any tenants have appended any events to a new log of capacity `n`, where 0 stands for 10000, a tenant is
-- shown the events that it appended itself, with its name in their metadata, and no others, of those of the
-- latest events of all tenants that the filter lets through, at most as many as the capacity, the oldest first.
pub list-append_each :
    (n : ℕ) (u : String) (filter : AuditFilter) (es : List (String × AuditEvent))
    → (audit_store memory_audit u).list (append_each (new_audit_store n) es) filter
      ≡ some (shown_to u filter (last_n (if eqb n 0 then default_audit_cap else n) es))
unfolding audit_store
list-append_each n u filter es =
    let cap = if eqb n 0 then default_audit_cap else n in
    ap (λ s. own_events u (list_audit s filter)) (append_each-stamped _ es)
    ∙ ap (own_events u) (list_audit-append_all n filter (stamped es))
    ∙ ap (λ l. some (keep (is_own u) (keep (passes filter) l)))
        (ap (λ k. drop (k - cap) (stamped es)) (length-stamped es)
          ∙ drop-stamped (length es - cap) es)
    ∙ ap some (keep-stamped u filter (last_n cap es))
