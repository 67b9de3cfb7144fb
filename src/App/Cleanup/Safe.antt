-- ===== src/App/Cleanup/Safe.antt =====
-- A pass of internal/app/cleanup.go deletes only what the rows of the store permit.
use baidu_drive_mover.Base.{Bool, true, false, [], none, some, Result, ok, err}
use baidu_drive_mover.Base.Effects.{
  After-state, Keeps, bind, return-Triple, if-Triple, ignore-Triple, caught-Triple, weaken,
}
use baidu_drive_mover.Text.{Str}
use baidu_drive_mover.World.{
  At, World, Failure, IsIdle, Context, outside_call, outside_call-Keeps, report-Keeps,
  check_context-Keeps, store_call, store_call-Keeps, query, query-Triple,
}
use baidu_drive_mover.State.Model.{TaskStatus, StateError}
use baidu_drive_mover.State.Db.{Db}
use baidu_drive_mover.State.Tasks.{update_task_status}
use baidu_drive_mover.State.Cleanup.{cleanup_candidates}
use baidu_drive_mover.State.CleanupRoot.{task_root_cleanup_candidate}
use baidu_drive_mover.State.History.{Call, perform}
use baidu_drive_mover.Drive.Logical.{find_task}
use baidu_drive_mover.Cleanup.{Problem, Summary, run_cleanup_engine}
use baidu_drive_mover.Cleanup.Safe.{run_cleanup_engine-Permitted}
use baidu_drive_mover.Cleanup.Safe.Guard.{IsGuarded}
use baidu_drive_mover.App.Cleanup
use baidu_drive_mover.App.Cleanup.{CleanupRunner}

-- A property that the calls of the runner keep, and those of each of its engines as long as the rows
-- permit the deletions.
pub record IsPermitting {W E A : Type 0} (r : CleanupRunner W E A) (sha256_hex : Str → Str)
    (task : Str) (P : Db → W → Type 0) : Type 0 where
  pub idle : IsIdle r.outside P
  pub stored : (c : Call) (db : Db) (w : W) → P db w → P (perform sha256_hex c db) w
  pub loaded : (db : Db) (w : W) → P db w → P db (r.load_cookies w).0
  pub saved : (cookies : Str) (db : Db) (w : W) → P db w → P db (r.save_cookies cookies w).0
  pub logged_in : (db : Db) (w : W) → P db w → P db (r.login w).0
  pub made : (cookies : Str) (db : Db) (w : W) → P db w → P db (r.new_client cookies w).0
  pub guarded : (a : A) → IsGuarded (Cleanup.make_engine r a) sha256_hex task P

module _ {W E A : Type 0} {r : CleanupRunner W E A} {sha256_hex : Str → Str} {task : Str}
    {P : Db → W → Type 0} (g : IsPermitting r sha256_hex task P) where
  abbrev Safe : World W → Type 0
  Safe = At P

  called :
      {B : Type 0} (f : W → W × Result E B)
      → ((db : Db) (w : W) → P db w → P db (f w).0)
      → Keeps Safe (outside_call {D = Problem} f)
  called f kept = outside_call-Keeps P f (λ s p. kept s.db s.outside p)

  queried :
      {B : Type 0} (q : Db → Result StateError B)
      → Keeps Safe (query {D = Problem} r.outside Context.caller q)
  queried q =
      weaken (query-Triple P r.outside g.idle (λ _ _. Unit {0}) Context.caller q (λ _ _ _ _ _. tt))
        (λ s p. p) (λ _ s p. p.0) (λ _ s p. p)

  updated :
      (ctx : Context) (status : TaskStatus) (message : Str)
      → Keeps Safe (store_call {D = Problem} r.outside ctx (update_task_status task status message))
  unfolding perform
  updated ctx status message =
      store_call-Keeps P r.outside g.idle ctx (update_task_status task status message)
        (λ now. g.stored (Call.updates_task_status task status message now))

  prepare_cleanup_client-Safe :
      (force_login : Bool) → Keeps Safe (Cleanup.prepare_cleanup_client r force_login)
  unfolding Cleanup.prepare_cleanup_client Cleanup.refresh_login
  prepare_cleanup_client-Safe force_login = bind (called r.load_cookies g.loaded) λ cookies.
      bind (called (r.new_client cookies) (g.made cookies)) λ api.
        if-Triple _
          (λ _. bind (called r.login g.logged_in) λ cookies'.
            bind (report-Keeps P (r.save_cookies cookies') (g.saved cookies'))
              λ _. called (r.new_client cookies') (g.made cookies'))
          λ _. return-Triple api (λ s p. p)

  begin_cleanup-Safe : Keeps Safe (Cleanup.begin_cleanup r task)
  unfolding Cleanup.begin_cleanup Cleanup.find_work
  begin_cleanup-Safe =
      bind
        (bind (queried (find_task task)) λ _.
          bind (queried (λ db. ok (cleanup_candidates task r.max_batches db))) λ candidates.
            bind (queried (λ db. ok (task_root_cleanup_candidate task db)))
              λ root. return-Triple _ (λ s p. p))
        λ some_work.
          if-Triple some_work
            (λ _.
              bind (updated Context.caller TaskStatus.running [])
                λ _. return-Triple true (λ s p. p))
            λ _. return-Triple false (λ s p. p)

  engine-Safe :
      (a : A) (w : World W) → Safe w → Safe (run_cleanup_engine (Cleanup.make_engine r a) task w).0
  engine-Safe a w p =
      let k = g.guarded a in
      run_cleanup_engine-Permitted (Cleanup.make_engine r a) sha256_hex task P k.idle k.stored
        k.listed k.removed k.deleted w p

  with_client-Safe :
      (before : Summary) (x : World W × Result (Failure E Problem) A)
      → Safe x.0
      → Safe (Cleanup.with_client r task before x).0
  unfolding Cleanup.with_client
  with_client-Safe before (w, ok api) p = engine-Safe api w p
  with_client-Safe before (w, err e) p = p

  prepared :
      (force_login : Bool) (w : World W)
      → Safe w
      → Safe (Cleanup.prepare_cleanup_client r force_login w).0
  prepared force_login w p =
      After-state Safe (prepare_cleanup_client-Safe force_login w p) (λ _ _ q. q) (λ _ _ q. q)

  second_session-Safe :
      (x : World W × Cleanup.CleanupExit r) → Safe x.0 → Safe (Cleanup.second_session r task x).0
  unfolding Cleanup.second_session
  second_session-Safe (w, (s, e)) p = choose (Cleanup.is_logged_out r e)
    where
      choose :
          (b : Bool)
          → Safe
              (elim b as (λ _. World W × Cleanup.CleanupExit r) [
                | true ↦ Cleanup.with_client r task s (Cleanup.prepare_cleanup_client r true w)
                | false ↦ (w, (s, e))
              ]).0
      choose true = with_client-Safe s _ (prepared true w p)
      choose false = p

  first_session-Safe :
      (x : World W × Result (Failure E Problem) A)
      → Safe x.0
      → Safe (Cleanup.first_session r task x).0
  unfolding Cleanup.first_session
  first_session-Safe (w, ok api) p = second_session-Safe _ (engine-Safe api w p)
  first_session-Safe (w, err e) p = p

  record_cleanup_error-Safe :
      (e : Failure E Problem) → Keeps Safe (Cleanup.record_cleanup_error r task e)
  unfolding Cleanup.record_cleanup_error Cleanup.failed_cleanup_status
  record_cleanup_error-Safe e =
      bind
        (if-Triple (r.is_cancelled e) (λ _. return-Triple TaskStatus.paused (λ s p. p))
          λ _.
            bind (caught-Triple (check_context-Keeps P r.outside g.idle))
              λ cancelled. return-Triple _ (λ s p. p))
        λ status. ignore-Triple _ (updated Context.background status (r.safe_error e))

  exit_of-Safe :
      (s : Summary) (x : World W × Result (Failure E Problem) (Unit {0}))
      → Safe x.0
      → Safe (Cleanup.exit_of r s x).0
  unfolding Cleanup.exit_of
  exit_of-Safe s (w, ok _) p = p
  exit_of-Safe s (w, err e) p = p

  finish_cleanup-Safe :
      (x : World W × Cleanup.CleanupExit r) → Safe x.0 → Safe (Cleanup.finish_cleanup r task x).0
  unfolding Cleanup.finish_cleanup
  finish_cleanup-Safe (w, (s, some e)) p =
      After-state Safe (record_cleanup_error-Safe e w p) (λ _ _ q. q) (λ _ _ q. q)
  finish_cleanup-Safe (w, (s, none)) p =
      exit_of-Safe s _ (
        After-state Safe (updated Context.caller TaskStatus.paused [] w p) (λ _ _ q. q)
          (λ _ _ q. q))

  after_begin-Safe :
      (x : World W × Result (Failure E Problem) Bool)
      → Safe x.0
      → Safe (Cleanup.after_begin r task x).0
  unfolding Cleanup.after_begin
  after_begin-Safe (w, ok true) p =
      finish_cleanup-Safe _ (first_session-Safe _ (prepared false w p))
  after_begin-Safe (w, ok false) p = p
  after_begin-Safe (w, err e) p = p

  -- Take any property of the database and the outside that is kept by every method of the store, by
  -- the clock, the context and the driver, by the cookies, the login and the clients, by every
  -- listing, by the removal of a cache file that the rows at that moment permit, and by the deletion
  -- of a remote directory that they permit. Then a pass keeps it, whether it succeeds or fails, and
  -- also where it logs in again and runs a second engine.
  pub run_cleanup-Permitted : (w : World W) → Safe w → Safe (Cleanup.run_cleanup r task w).0
  unfolding Cleanup.run_cleanup
  run_cleanup-Permitted w p =
      after_begin-Safe _ (After-state Safe (begin_cleanup-Safe w p) (λ _ _ q. q) (λ _ _ q. q))
