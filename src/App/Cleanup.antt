-- ===== src/App/Cleanup.antt =====
-- internal/app/cleanup.go: CleanupRunner.Run, one pass of the cleanup engine with a session of Baidu.
pub mod Safe
mod Tests
use baidu_drive_mover.Base.{
  ℕ, Bool, true, false, not, ◌||◌, [], Option, none, some, Result, ok, err, if◌then◌else◌, is_empty,
}
use baidu_drive_mover.Base.Effects.{Effect, ◌>>=◌, ◌>>◌, return, ignore, caught}
use baidu_drive_mover.Text.{Str}
use baidu_drive_mover.World.{
  Context, World, Failure, Outside, Act, report, outside_call, check_context, store_call, query,
}
use baidu_drive_mover.State.Model.{TaskStatus}
use baidu_drive_mover.State.Tasks.{update_task_status}
use baidu_drive_mover.State.Cleanup.{cleanup_candidates}
use baidu_drive_mover.State.CleanupRoot.{task_root_cleanup_candidate}
use baidu_drive_mover.Drive.Logical.{find_task}
use baidu_drive_mover.Cleanup.{Engine, Problem, Summary, empty_summary, run_cleanup_engine}

-- The fields of the runner. `A` is a client of Baidu, `engine` the calls of the engine that works with
-- it, and `is_auth_required` errors.Is(err, baidu.ErrAuthRequired). `is_blocking` is the test for this
-- error, for a verification that is required, and for a quota that is exceeded, and `is_cancelled`
-- that for one of the two errors of a context.
pub record CleanupRunner (W E A : Type 0) : Type 0 where
  pub outside : Outside W E
  pub load_cookies : W → W × Result E Str
  pub save_cookies : Str → W → W × Option E
  pub login : W → W × Result E Str
  pub new_client : Str → W → W × Result E A
  pub has_login_cookies : A → Bool
  pub engine : A → Engine W E
  pub is_auth_required : E → Bool
  pub is_blocking : Failure E Problem → Bool
  pub is_cancelled : Failure E Problem → Bool
  pub safe_error : Failure E Problem → Str
  pub max_batches : ℕ  -- 0 where it is not positive

module _ {W E A : Type 0} (r : CleanupRunner W E A) where
  -- A summary, and an error if there is one.
  abbrev pub CleanupExit : Type 0
  CleanupExit = Summary × Option (Failure E Problem)

  unfoldable pub refresh_login : Act W E Problem A
  refresh_login = do
    cookies ← outside_call r.login
    report (r.save_cookies cookies)
    outside_call (r.new_client cookies)

  unfoldable pub prepare_cleanup_client : Bool → Act W E Problem A
  prepare_cleanup_client force_login = do
    cookies ← outside_call r.load_cookies
    api ← outside_call (r.new_client cookies)
    if force_login || not (r.has_login_cookies api) then refresh_login else return api

  -- Whether there is something to clean up.
  unfoldable pub find_work : Str → Act W E Problem Bool
  find_work task = do
    _ ← query r.outside Context.caller (find_task task)
    candidates ←
        query r.outside Context.caller (λ db. ok (cleanup_candidates task r.max_batches db))
    root ← query r.outside Context.caller (λ db. ok (task_root_cleanup_candidate task db))
    return (not (is_empty candidates) || root)

  unfoldable pub begin_cleanup : Str → Act W E Problem Bool
  begin_cleanup task = do
    some_work ← find_work task
    if some_work
        then (do
          store_call r.outside Context.caller (update_task_status task TaskStatus.running [])
          return true)
        else return false

  -- The engine works on the store and with the limit of the runner.
  unfoldable pub make_engine : A → Engine W E
  make_engine api = record (r.engine api) { outside = r.outside; max_batches = r.max_batches }

  -- The engine with a client; where there is no client, the summary stays the one before.
  unfoldable pub with_client :
      Str → Summary → World W × Result (Failure E Problem) A → World W × CleanupExit
  with_client task before (w, ok api) = run_cleanup_engine (make_engine api) task w
  with_client task before (w, err x) = (w, (before, some x))

  unfoldable pub is_logged_out : Option (Failure E Problem) → Bool
  is_logged_out (some (Failure.outer e)) = r.is_auth_required e
  is_logged_out _ = false

  -- A second session, with a new login, if the engine of the first was logged out.
  unfoldable pub second_session : Str → World W × CleanupExit → World W × CleanupExit
  second_session task (w, (s, e)) = elim (is_logged_out e) [
    | true ↦ with_client task s (prepare_cleanup_client true w)
    | false ↦ (w, (s, e))
  ]

  unfoldable pub first_session :
      Str → World W × Result (Failure E Problem) A → World W × CleanupExit
  first_session task (w, ok api) = second_session task (run_cleanup_engine (make_engine api) task w)
  first_session task (w, err x) = (w, (empty_summary, some x))

  unfoldable pub failed_cleanup_status : Failure E Problem → Act W E Problem TaskStatus
  failed_cleanup_status e = if r.is_cancelled e then return TaskStatus.paused else (do
    cancelled ← caught (check_context r.outside)
    return (elim cancelled [
      | some _ ↦ TaskStatus.paused
      | none ↦ if r.is_blocking e then TaskStatus.blocked else TaskStatus.paused
    ]))

  unfoldable pub record_cleanup_error : Str → Failure E Problem → Act W E Problem (Unit {0})
  record_cleanup_error task e = do
    status ← failed_cleanup_status e
    ignore
        (store_call r.outside Context.background (update_task_status task status (r.safe_error e)))

  unfoldable pub exit_of :
      Summary → World W × Result (Failure E Problem) (Unit {0}) → World W × CleanupExit
  exit_of s (w, ok _) = (w, (s, none))
  exit_of s (w, err x) = (w, (s, some x))

  unfoldable pub finish_cleanup : Str → World W × CleanupExit → World W × CleanupExit
  finish_cleanup task (w, (s, some e)) = ((record_cleanup_error task e w).0, (s, some e))
  finish_cleanup task (w, (s, none)) =
      exit_of s
        (store_call r.outside Context.caller (update_task_status task TaskStatus.paused []) w)

  unfoldable pub after_begin :
      Str → World W × Result (Failure E Problem) Bool → World W × CleanupExit
  after_begin task (w, ok true) =
      finish_cleanup task (first_session task (prepare_cleanup_client false w))
  after_begin task (w, ok false) = (w, (empty_summary, none))
  after_begin task (w, err x) = (w, (empty_summary, some x))

  unfoldable pub run_cleanup : Str → World W → World W × CleanupExit
  run_cleanup task w = after_begin task (begin_cleanup task w)
