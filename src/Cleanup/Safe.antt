-- ===== src/Cleanup/Safe.antt =====
-- What the engine of internal/cleanup deletes: only what the rows of the store allow at that moment.
pub mod Guard
mod Batch
mod Root
use baidu_drive_mover.Base.{
  ◌≡◌, subst, List, [], ◌∷◌, some, Result, All, All-found, is_empty, first_where, length, ℕ, Bool,
  true, false, Option, suc, none, ok, ◌==◌, zero,
}
use baidu_drive_mover.Base.Effects.{
  Effect, Triple, Keeps, bind, weaken, return-Triple, raise-Triple, expect-Triple, if-Triple,
  handle-Triple, ignore-Triple, lift-Triple, After, After-weaken, returned, raised, ◌>>=◌,
}
use baidu_drive_mover.Text.{Str, str_eq}
use baidu_drive_mover.World.{
  At, World, Failure, IsIdle, Context, outside_call-Keeps, check_context-Keeps, store_call-Keeps,
  store_call-Triple, query-Triple, outside_call, check_context, store_call, query, Outside,
}
use baidu_drive_mover.State.Model.{File, StateError}
use baidu_drive_mover.State.Db.{
  Db, CleanupObject, scope_local_cache_file, scope_baidu_batch_dir, scope_baidu_task_root, BatchRow,
}
use baidu_drive_mover.State.Cleanup.{
  CleanupBatch, mark_local_cache_cleanup_done, mark_baidu_batch_cleanup_done,
  record_local_cache_cleanup_failure, record_baidu_batch_cleanup_failure, authorize_batch_cleanup,
  complete_batch_cleanup, cleanup_candidates,
}
use baidu_drive_mover.State.CleanupRoot.{
  mark_baidu_task_root_cleanup_done, record_baidu_task_root_cleanup_failure,
  authorize_task_root_cleanup,
}
use baidu_drive_mover.State.Cleanup.Authorized.{HasOwnPath, authorize_batch_cleanup_lem}
use baidu_drive_mover.State.History.{Call, perform}
use baidu_drive_mover.Cleanup
use baidu_drive_mover.Cleanup.Permits.{
  MayRemove, MayDelete, IsBeingCleaned, mark_local_cache_cleanup_done-IsBeingCleaned,
  IsAuthorized-IsBeingCleaned,
}
use baidu_drive_mover.Cleanup.{Engine, Problem, Summary}
use baidu_drive_mover.State.CleanupRoot.Authorized.{authorize_task_root_cleanup_lem}
use baidu_drive_mover.Cleanup.Safe.Guard.{IsGuarded, Fails}
use baidu_drive_mover.Cleanup.Safe.Batch.{next_batch-Triple}
use baidu_drive_mover.Cleanup.Safe.Root.{after_loop-Triple}
use baidu_drive_mover.Baidu.Remote.{RemoteFile}

module _ {W E : Type 0} {e : Engine W E} {sha256_hex : Str → Str} {task : Str} {P : Db → W → Type 0}
    (g : IsGuarded e sha256_hex task P) where
  finish_safe :
      (s : Summary) (r : World W × Result (Failure E Problem) Bool)
      → After (λ _. At P) (Fails P) r
      → At P (Cleanup.finish_run e s r).0
  unfolding Cleanup.finish_run
  finish_safe s r (returned p) = p
  finish_safe s r (raised p) = p

  turn_safe :
      (s : Summary) (again : Summary → World W → World W × Cleanup.Exit e)
      (r : World W × Result (Failure E Problem) (Option CleanupBatch))
      → ((s1 : Summary) (w : World W) → At P w → At P (again s1 w).0)
      → After (λ _. At P) (Fails P) r
      → At P (Cleanup.turn e task s again r).0
  unfolding Cleanup.turn
  turn_safe s again r next (returned {a = none} p) = finish_safe s _ (after_loop-Triple g _ p)
  turn_safe s again r next (returned {a = some b} p) = next _ _ p
  turn_safe s again r next (raised p) = p

  run_batches_safe :
      (left : ℕ) (s : Summary) (w : World W) → At P w → At P (Cleanup.run_batches e left task s w).0
  unfolding Cleanup.run_batches
  run_batches_safe zero s w p = finish_safe s _ (after_loop-Triple g w p)
  run_batches_safe (suc left) s w p =
      turn_safe s _ _ (run_batches_safe left) (next_batch-Triple g (suc left) w p)

module _ {W E : Type 0} (e : Engine W E) (sha256_hex : Str → Str) (task : Str) (P : Db → W → Type 0)
    (idle : IsIdle e.outside P)
    (stored : (c : Call) (db : Db) (w : W) → P db w → P (perform sha256_hex c db) w)
    (listed : (path : Str) (db : Db) (w : W)
      → P db w
      → P db (e.list_staging_path_for_cleanup path w).0)
    (removed : (path : Str) (db : Db) (w : W)
      → MayRemove db task path
      → P db w
      → P db (e.remove_temp_file path w).0)
    (deleted : (path : Str) (db : Db) (w : W)
      → MayDelete db task path
      → P db w
      → P db (e.delete_staging_path path w).0) where
  -- Take any property of the database and the outside that is kept by every method of the store, by
  -- the clock, the context and the driver, by every listing, by the removal of a cache file that the
  -- rows at that moment permit, and by the deletion of a remote directory that they permit. Then Run
  -- keeps it, whether it succeeds or fails: so Run removes only cache files of files that are
  -- pending cleanup with a Drive ID, at exactly the path that their rows allow, and deletes only
  -- directories of batches all of whose files are pending with a Drive ID, or the root of a task
  -- that has no unfinished file.
  pub run_cleanup_engine-Permitted :
      (w : World W) → At P w → At P (Cleanup.run_cleanup_engine e task w).0
  unfolding Cleanup.run_cleanup_engine
  run_cleanup_engine-Permitted w p =
      run_batches_safe guarded (Cleanup.batch_limit e) Cleanup.empty_summary w p
    where
      guarded : IsGuarded e sha256_hex task P
      guarded = record {
        idle = idle;
        stored = stored;
        listed = listed;
        removed = removed;
        deleted = deleted;
      }
