-- ===== src/Common/AuditLog.antt =====
-- The audit log (`model AuditLog`), which the services write after what they do.
use kltn_high_concurrency_co.Prelude.{Bool, false, Option, ◌≡◌, ◌⊎◌, refl, inl, inr}
use kltn_high_concurrency_co.Common.Ids.{UserId, RowId}
use kltn_high_concurrency_co.Common.Exception.{Result, ok, throw, error}
use kltn_high_concurrency_co.Prisma.{done, p2002, rejected, Write-cases, Table}

-- The `action` of a row.
pub data AuditAction : Type 0 where
  login_action logout_action update_profile_action change_email_action : AuditAction
  create_event_action update_event_action submit_event_action : AuditAction

-- A row without its address, its metadata and its time.
pub record AuditRow : Type 0 where
  pub user_id : UserId
  pub action : AuditAction
  pub resource_id : Option RowId

abbrev pub never_same : AuditRow → AuditRow → Bool
never_same r s = false

module _ (A : Table AuditRow never_same) where
  -- `await this.prisma.auditLog.create(…)`, then the answer
  unfoldable pub answer_with_audit :
      {B S : Type 0} → AuditRow → B → S → A.State → Result B × (S × A.State)
  answer_with_audit row answer s a = elim (A.create row a) [
    | done a' ↦ (ok answer, (s, a'))
    | p2002 ↦ (throw error, (s, a))
    | rejected ↦ (throw error, (s, a))
  ]

  -- The audit row may fail to be written, which leaves the other tables as they are.
  pub answer_with_audit-kept :
      {B S : Type 0} (row : AuditRow) (answer : B) (s : S) (a : A.State)
      → (answer_with_audit row answer s a).1.0 ≡ s
  unfolding answer_with_audit
  answer_with_audit-kept row answer s a = elim (Write-cases (A.create row a)) [
    | inl (a', e) ↦ rw (e, answer_with_audit) refl
    | inr (inl e) ↦ rw (e, answer_with_audit) refl
    | inr (inr e) ↦ rw (e, answer_with_audit) refl
  ]

  -- It answers if the row is written, and throws otherwise.
  pub answer_with_audit-answers :
      {B S : Type 0} (row : AuditRow) (answer : B) (s : S) (a : A.State)
      → ((answer_with_audit row answer s a).0 ≡ ok answer)
        ⊎ (((answer_with_audit row answer s a).0 ≡ throw error)
            × ((A.create row a ≡ p2002) ⊎ (A.create row a ≡ rejected)))
  unfolding answer_with_audit
  answer_with_audit-answers row answer s a = elim (Write-cases (A.create row a)) [
    | inl (a', e) ↦ inl (rw (e, answer_with_audit) refl)
    | inr (inl e) ↦ inr (rw (e, answer_with_audit) refl, inl e)
    | inr (inr e) ↦ inr (rw (e, answer_with_audit) refl, inr e)
  ]
