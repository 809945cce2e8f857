-- ===== src/Audit.antt =====
-- omkit/auth/audit.py and omkit/security/events.py: the rows of admin_audit_log and
-- security_events. The tables are lists; the pool is a test whether it is there, and a function that
-- may refuse the row. A tenant and a document are UUIDs in text; `none` is Python's None.
pub mod Rows
mod Tests
use omkit_python.Prelude.{
  Bool, true, false, not, ◌&&◌, Option, none, some, List, [], ◌∷◌, ◌++◌, if◌then◌else◌, ◌==◌,
}
use omkit_python.Prelude.Text.{Text, codes, text_eq, is_empty}
use omkit_python.Prelude.Exceptions.{Result, ok, raise}
use omkit_python.Json.{Value, null, dumps, plain}
use omkit_python.Access.{Role, role_value}

-- `ValueError` with its reason, and what the database raises.
pub data Error : Type 0 where
  nil_pool action_required tenant_required kind_required severity_required database : Error

pub record AuditEntry : Type 0 where
  pub role : Role
  pub action : Text
  pub target_kind : Text
  pub target_id : Text
  pub diff : Value

-- The actor and the request, which the caller has taken from the HTTP framework.
pub record Actor : Type 0 where
  pub actor_uid : Text
  pub actor_email : Option Text
  pub actor_groups : Option Text
  pub request_id : Option Text
  pub client_ip : Option Text
  pub user_agent : Option Text

pub record AuditRow : Type 0 where
  pub actor_uid : Text
  pub actor_email : Option Text
  pub actor_groups : Option Text
  pub role : Text
  pub action : Text
  pub target_kind : Option Text
  pub target_id : Option Text
  pub diff : Option Text
  pub request_id : Option Text
  pub ip : Option Text
  pub user_agent : Option Text

-- `s or None`
abbrev pub or_none : Option Text → Option Text
or_none none = none
or_none (some s) = if is_empty s then none else some s

-- `None`, or `json.dumps` of another value.
abbrev pub diff_param : Value → Option Text
diff_param null = none
diff_param v = some (dumps plain v)

unfoldable pub audit_row : AuditEntry → Actor → AuditRow
audit_row e a = record {
  actor_uid = if is_empty a.actor_uid then codes "service" else a.actor_uid;
  actor_email = or_none a.actor_email;
  actor_groups = or_none a.actor_groups;
  role = role_value e.role;
  action = e.action;
  target_kind = or_none (some e.target_kind);
  target_id = or_none (some e.target_id);
  diff = diff_param e.diff;
  request_id = or_none a.request_id;
  ip = or_none a.client_ip;
  user_agent = or_none a.user_agent;
}

-- A pool that is there: whether the database takes the row.
abbrev pub Pool : Type 0 → Type 0
Pool R = Option (R → Bool)

abbrev pub insert_row : {R : Type 0} → (R → Bool) → R → List R → Result Error (List R)
insert_row accepts r t = if accepts r then ok (t ++ (r ∷ [])) else raise database

-- A role is never falsy.
unfoldable pub write_audit_entry :
    Pool AuditRow → AuditEntry → Actor → List AuditRow → Result Error (List AuditRow)
unfolding audit_row
write_audit_entry none e a t = raise nil_pool
write_audit_entry (some accepts) e a t =
    if is_empty e.action then raise action_required else insert_row accepts (audit_row e a) t

pub record SecurityEvent : Type 0 where
  pub tenant_id : Option Text
  pub kind : Text
  pub severity : Text
  pub doc_id : Option Text
  pub chunk_id : Option Text
  pub evidence : Value
  pub classifier_version : Option Text
  pub request_id : Option Text

pub record SecurityRow : Type 0 where
  pub tenant_id : Option Text
  pub kind : Text
  pub severity : Text
  pub doc_id : Option Text
  pub chunk_id : Option Text
  pub evidence : Text
  pub classifier_version : Option Text
  pub request_id : Option Text

-- `evidence_json`
abbrev pub evidence_json : Value → Text
evidence_json null = codes "{}"
evidence_json v = dumps plain v

unfoldable pub security_row : SecurityEvent → SecurityRow
security_row e = record {
  tenant_id = e.tenant_id;
  kind = e.kind;
  severity = e.severity;
  doc_id = e.doc_id;
  chunk_id = e.chunk_id;
  evidence = evidence_json e.evidence;
  classifier_version = e.classifier_version;
  request_id = e.request_id;
}

-- The table, and how many warnings were logged.
pub record Log : Type 0 where
  pub rows : List SecurityRow
  pub warnings : List SecurityEvent

-- `log_security_event`, which checks nothing.
unfoldable pub log_security_event : (SecurityRow → Bool) → SecurityEvent → Log → Result Error Log
unfolding security_row
log_security_event accepts e l = elim (insert_row accepts (security_row e) l.rows) [
  | raise x ↦ raise x
  | ok rows ↦ ok (record {
    rows = rows;
    warnings = if e.severity == codes "block" then l.warnings ++ (e ∷ []) else l.warnings;
  })
]

unfoldable pub write_security_event : Pool SecurityRow → SecurityEvent → Log → Result Error Log
unfolding log_security_event
write_security_event none e l = raise nil_pool
write_security_event (some accepts) e l = elim e.tenant_id [
  | none ↦ raise tenant_required
  | some t ↦
      if is_empty e.kind
      then raise kind_required
      else if is_empty e.severity
      then raise severity_required
      else log_security_event accepts e l
]
