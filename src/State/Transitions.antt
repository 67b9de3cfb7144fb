-- ===== src/State/Transitions.antt =====
-- The table of transitions of internal/state/model.go, as ValidateFileTransition reads it.
use mathlib.Core.Bool.{false≢true}
use baidu_drive_mover.Base.{subst, sym, ◌∙◌, ◌≤◌, ◌≡◌, ◌⊎◌, arith, true, ok, inl, inr}
use baidu_drive_mover.State.Model.{
  FileStatus, same_status, allowed_file_transitions, validate_file_transition,
}
use baidu_drive_mover.State.Evolves.{rank}

-- The statuses from which a file may be done.
pub data IsBeforeDone : FileStatus → Type 0 where
  verified : IsBeforeDone FileStatus.drive_verified
  pending : IsBeforeDone FileStatus.cleanup_pending
  already : IsBeforeDone FileStatus.done

-- A file goes forward, or it comes from or goes to the status that waits for a retry.
abbrev pub IsForward : FileStatus → FileStatus → Type 0
IsForward from to =
    (rank from ≤ rank to)
    ⊎ ((from ≡ FileStatus.failed_retryable) ⊎ (to ≡ FileStatus.failed_retryable))

allowed-IsForward :
    (from to : FileStatus) → allowed_file_transitions from to ≡ true → IsForward from to
unfolding allowed_file_transitions
allowed-IsForward from to h = ground arith

same-IsForward : (from to : FileStatus) → same_status from to ≡ true → IsForward from to
unfolding same_status
same-IsForward from to h = ground arith

test_cases :
    (from to : FileStatus)
    → validate_file_transition from to ≡ ok tt
    → (same_status from to ≡ true) ⊎ (allowed_file_transitions from to ≡ true)
unfolding validate_file_transition
test_cases from to h = ground arith

-- No file leaves these statuses.
pub data IsFinal : FileStatus → Type 0 where
  done : IsFinal FileStatus.done
  failed : IsFinal FileStatus.failed_permanent

allowed-not_final :
    (from to : FileStatus) → IsFinal from → allowed_file_transitions from to ≡ true → ⊥
unfolding allowed_file_transitions
allowed-not_final _ to IsFinal.done h = false≢true h
allowed-not_final _ to IsFinal.failed h = false≢true h

allowed-done :
    (from : FileStatus) → allowed_file_transitions from FileStatus.done ≡ true → IsBeforeDone from
unfolding allowed_file_transitions
allowed-done FileStatus.drive_verified h = IsBeforeDone.verified
allowed-done FileStatus.cleanup_pending h = IsBeforeDone.pending
allowed-done from h = absurd (false≢true h)

same_status-eq : (from to : FileStatus) → same_status from to ≡ true → from ≡ to
unfolding same_status
same_status-eq from to h = ground arith

before_done :
    (from to : FileStatus) → same_status from to ≡ true → to ≡ FileStatus.done → IsBeforeDone from
before_done from to h e =
    subst IsBeforeDone (sym (same_status-eq from to h ∙ e)) IsBeforeDone.already

-- If ValidateFileTransition accepts a transition, the file goes forward in the order of the
-- pipeline, or it comes from or goes to FAILED_RETRYABLE; it is done only if it was verified on
-- Drive, pending cleanup or done before; and a file that was done or failed for good stays as it
-- was.
pub validate_file_transition_lem :
    (from to : FileStatus)
    → validate_file_transition from to ≡ ok tt
    → IsForward from to × (to ≡ FileStatus.done → IsBeforeDone from) × (IsFinal from → to ≡ from)
validate_file_transition_lem from to h = elim (test_cases from to h) [
  | inl same ↦ (
    same-IsForward from to same,
    before_done from to same,
    λ _. sym (same_status-eq from to same),
  )
  | inr allowed ↦ (
    allowed-IsForward from to allowed,
    (λ e. allowed-done from (subst (λ t. allowed_file_transitions from t ≡ true) e allowed)),
    λ final. absurd (allowed-not_final from to final allowed),
  )
]
