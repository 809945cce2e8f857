-- ===== src/Audit/Tests.antt =====
-- Witnesses and tests for the two logs.
use omkit_python.Prelude.{◌≡◌, refl, true, false, none, some, List, [], ◌∷◌, ◌++◌, length, All}
use omkit_python.Prelude.Text.{codes, text_beq}
use omkit_python.Prelude.Exceptions.{ok, raise}
use omkit_python.Json.{null}
use omkit_python.Access.{admin, role_value}
use omkit_python.Audit.{
  AuditEntry, Actor, AuditRow, SecurityEvent, Log, write_audit_entry, write_security_event,
  tenant_required,
}
use omkit_python.Audit.Rows.{
  IsValid, Write, write_all, write_all-appends, Report, logs, writes, report_all, blocks,
  report_all-warned,
}

abbrev entry : AuditEntry
entry = record {
  role = admin;
  action = codes "rotate";
  target_kind = [];
  target_id = [];
  diff = null;
}

abbrev nobody : Actor
nobody = record {
  actor_uid = [];
  actor_email = some [];
  actor_groups = none;
  request_id = none;
  client_ip = none;
  user_agent = none;
}

write_audit_entry-service :
    write_audit_entry (some (λ r. true)) entry nobody []
    ≡ ok (
        record {
          actor_uid = codes "service";
          actor_email = none;
          actor_groups = none;
          role = codes "admin";
          action = codes "rotate";
          target_kind = none;
          target_id = none;
          diff = none;
          request_id = none;
          ip = none;
          user_agent = none;
        }
        ∷ [])
unfolding write_audit_entry role_value
write_audit_entry-service = refl

abbrev calls : List Write
calls = (some (λ r. true), entry, nobody) ∷ (none, entry, nobody) ∷ []

write_all-appends_example :
    (new : List AuditRow) × (write_all calls [] ≡ [] ++ new) × All IsValid new
write_all-appends_example = write_all-appends calls []

abbrev event : SecurityEvent
event = record {
  tenant_id = some (codes "t");
  kind = codes "doc_quarantined";
  severity = codes "block";
  doc_id = none;
  chunk_id = none;
  evidence = null;
  classifier_version = none;
  request_id = none;
}

abbrev empty_log : Log
empty_log = record { rows = []; warnings = [] }

-- The second call has no tenant.
abbrev reports : List Report
reports =
    writes (some (λ r. true)) event
    ∷ writes (some (λ r. true)) (record event { tenant_id = none })
    ∷ logs (λ r. false) event
    ∷ []

report_all-warned-tested :
    blocks (report_all reports empty_log).rows ≡ length (report_all reports empty_log).warnings
report_all-warned-tested = report_all-warned reports empty_log refl

reports-counted : length (report_all reports empty_log).warnings ≡ 1
unfolding write_security_event text_beq
reports-counted = refl

write_security_event-tenant :
    write_security_event (some (λ r. true)) (record event { tenant_id = none }) empty_log
    ≡ raise tenant_required
unfolding write_security_event
write_security_event-tenant = refl
