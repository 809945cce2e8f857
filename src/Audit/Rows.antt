-- ===== src/Audit/Rows.antt =====
-- omkit/auth/audit.py and omkit/security/events.py: what is true of every row that is written.
use omkit_python.Prelude.{
  ℕ, ◌+◌, ◌≡◌, refl, ◌∙◌, sym, ap, inl, inr, Bool, true, false, Option, none, some, List, [], ◌∷◌,
  ◌++◌, arith, length, length-append, All, if◌then◌else◌, ◌==◌, Bool-cases, append-nil,
  append_assoc,
}
use omkit_python.Prelude.Text.{Text, codes, is_empty, text_eq, text_beq}
use omkit_python.Prelude.Exceptions.{Result, ok, raise}
use omkit_python.Prelude.Dict.{is_some}
use omkit_python.Access.{Role, role_value, role_of, admin, support, user}
use omkit_python.Audit.{
  Error, AuditEntry, Actor, AuditRow, Pool, audit_row, write_audit_entry, SecurityEvent,
  SecurityRow, Log, security_row, log_security_event, write_security_event, or_none,
}

abbrev pub IsFilled : Option Text → Type 0
IsFilled none = Unit
IsFilled (some s) = is_empty s ≡ false

-- The constraints of the table: an actor, an action, and a known role; and no optional column is an
-- empty text.
pub record IsValid (r : AuditRow) : Type 0 where
  pub actor : is_empty r.actor_uid ≡ false
  pub action : is_empty r.action ≡ false
  pub role : is_some (role_of r.role) ≡ true
  pub target_kind : IsFilled r.target_kind
  pub target_id : IsFilled r.target_id
  pub email : IsFilled r.actor_email
  pub groups : IsFilled r.actor_groups
  pub request : IsFilled r.request_id
  pub address : IsFilled r.ip
  pub agent : IsFilled r.user_agent

or_none-IsFilled : (o : Option Text) → IsFilled (or_none o)
or_none-IsFilled none = tt
or_none-IsFilled (some []) = tt
or_none-IsFilled (some (c ∷ s)) = refl

role_of-value : (r : Role) → is_some (role_of (role_value r)) ≡ true
unfolding role_of role_value text_beq
role_of-value admin = refl
role_of-value support = refl
role_of-value user = refl

audit_row-IsValid :
    (e : AuditEntry) (a : Actor) → is_empty e.action ≡ false → IsValid (audit_row e a)
unfolding audit_row
audit_row-IsValid e a h = record {
  actor = ground arith;
  action = h;
  role = role_of-value e.role;
  target_kind = or_none-IsFilled (some e.target_kind);
  target_id = or_none-IsFilled (some e.target_id);
  email = or_none-IsFilled a.actor_email;
  groups = or_none-IsFilled a.actor_groups;
  request = or_none-IsFilled a.request_id;
  address = or_none-IsFilled a.client_ip;
  agent = or_none-IsFilled a.user_agent;
}

-- A call, and the table after a list of calls, of which some may raise.
abbrev pub Write : Type 0
Write = Pool AuditRow × AuditEntry × Actor

abbrev pub kept : {A : Type 0} → A → Result Error A → A
kept t (ok t') = t'
kept t (raise x) = t

abbrev pub write_all : List Write → List AuditRow → List AuditRow
write_all [] t = t
write_all ((pool, e, a) ∷ ws) t = write_all ws (kept t (write_audit_entry pool e a t))

write-appends :
    (pool : Pool AuditRow) (e : AuditEntry) (a : Actor) (t : List AuditRow)
    → (new : List AuditRow) × (kept t (write_audit_entry pool e a t) ≡ t ++ new) × All IsValid new
unfolding write_audit_entry
write-appends none e a t = ([], sym (append-nil t), tt)
write-appends (some accepts) e a t = elim (Bool-cases (is_empty e.action)) [
  | inl empty ↦ ([], rw (empty, write_audit_entry) (sym (append-nil t)), tt)
  | inr full ↦ elim (Bool-cases (accepts (audit_row e a))) [
    | inl taken ↦ (
      audit_row e a ∷ [],
      rw (full, write_audit_entry, taken) refl,
      (audit_row-IsValid e a full, tt),
    )
    | inr refused ↦ ([], rw (full, write_audit_entry, refused) (sym (append-nil t)), tt)
  ]
]

All-append : (xs ys : List AuditRow) → All IsValid xs → All IsValid ys → All IsValid (xs ++ ys)
All-append [] ys h k = k
All-append (x ∷ xs) ys h k = (h.0, All-append xs ys h.1 k)

-- After any calls of `write_audit_entry`, of which some raise, the table has the rows that it had, in
-- front and unchanged, and rows that meet its constraints: an actor, an action, one of the three
-- roles, and no empty text in an optional column.
pub write_all-appends :
    (ws : List Write) (t : List AuditRow)
    → (new : List AuditRow) × (write_all ws t ≡ t ++ new) × All IsValid new
write_all-appends [] t = ([], sym (append-nil t), tt)
write_all-appends ((pool, e, a) ∷ ws) t =
    let (one, first, valid) = write-appends pool e a t in
    let (more, rest, valid') = write_all-appends ws (kept t (write_audit_entry pool e a t)) in
    (
      one ++ more,
      rest ∙ ap (λ (x : List AuditRow). x ++ more) first ∙ append_assoc t one more,
      All-append one more valid valid',
    )

-- How many rows have the severity "block".
abbrev pub blocks : List SecurityRow → ℕ
blocks [] = 0
blocks (r ∷ rs) = (if r.severity == codes "block" then 1 else 0) + blocks rs

blocks-append : (xs ys : List SecurityRow) → blocks (xs ++ ys) ≡ blocks xs + blocks ys
blocks-append [] ys = omega arith
blocks-append (x ∷ xs) ys = omega (arith, blocks-append xs ys)

-- A call of either entry point.
pub data Report : Type 0 where
  logs : (SecurityRow → Bool) → SecurityEvent → Report
  writes : Pool SecurityRow → SecurityEvent → Report

abbrev pub report : Report → Log → Result Error Log
report (logs accepts e) l = log_security_event accepts e l
report (writes pool e) l = write_security_event pool e l

abbrev pub report_all : List Report → Log → Log
report_all [] l = l
report_all (r ∷ rs) l = report_all rs (kept l (report r l))

log-warned :
    (accepts : SecurityRow → Bool) (e : SecurityEvent) (l : Log)
    → blocks l.rows ≡ length l.warnings
    → (let l' = kept l (log_security_event accepts e l) in blocks l'.rows ≡ length l'.warnings)
unfolding log_security_event security_row
log-warned accepts e l h =
    ground
      (arith, h, blocks-append l.rows (security_row e ∷ []), length-append {0} l.warnings (e ∷ []))

report-warned :
    (r : Report) (l : Log)
    → blocks l.rows ≡ length l.warnings
    → (let l' = kept l (report r l) in blocks l'.rows ≡ length l'.warnings)
unfolding write_security_event
report-warned (logs accepts e) l h = log-warned accepts e l h
report-warned (writes none e) l h = h
report-warned (writes (some accepts) e) l h = ground (arith, h, log-warned accepts e l h)

-- If there are as many warnings as rows with the severity "block", then this is so after any calls of
-- the two entry points too, whichever of them raise.
pub report_all-warned :
    (rs : List Report) (l : Log)
    → blocks l.rows ≡ length l.warnings
    → blocks (report_all rs l).rows ≡ length (report_all rs l).warnings
report_all-warned [] l h = h
report_all-warned (r ∷ rs) l h = report_all-warned rs (kept l (report r l)) (report-warned r l h)
