-- ===== src/Admin/AuditLogs.antt =====
-- modules/admin/audit.service.js: `listAuditLogs`. The times of the entries are left out of the rows,
-- so that the condition on them is an argument.
use qpass_backend.Prelude.{ℕ, String, Bool, true, ◌&&◌, Option, none, some, ◌==◌}
use qpass_backend.Prelude.Tables.{find_many, count}
use qpass_backend.Db.{Db, AuditLog}
use qpass_backend.Paging.{Listing, given_or, checked_size, newest_first, listed}

pub record AuditQuery : Type 0 where
  pub page : Option ℕ
  pub limit : Option ℕ
  pub action : Option String
  pub entity : Option String
  pub actor_id : Option String
  pub in_range : AuditLog → Bool

abbrev pub is_given : Option String → String → Bool
is_given none s = true
is_given (some t) s = s == t

-- A null column is no actor.
abbrev pub is_actor : Option String → Option String → Bool
is_actor none a = true
is_actor (some t) none = Bool.false
is_actor (some t) (some s) = s == t

abbrev pub audited : AuditQuery → AuditLog → Bool
audited query a =
    is_given query.action a.action
    && is_given query.entity a.entity
    && is_actor query.actor_id a.actor_id
    && query.in_range a

unfoldable pub list_audit_logs : AuditQuery → Db → Listing AuditLog
list_audit_logs query db =
    listed (given_or 1 query.page) (checked_size query.limit) (count (audited query) db.audit_logs)
      (newest_first (find_many (audited query) db.audit_logs))
