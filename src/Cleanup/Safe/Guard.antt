-- ===== src/Cleanup/Safe/Guard.antt =====
-- Properties that the engine of internal/cleanup keeps, call by call: its calls of the store, its
-- listings, and the deletion of a path while the rows permit it.
use baidu_drive_mover.Base.{Result}
use baidu_drive_mover.Base.Effects.{
  Effect, Triple, Keeps, bind, weaken, return-Triple, raise-Triple, if-Triple, handle-Triple,
  ignore-Triple,
}
use baidu_drive_mover.Text.{Str}
use baidu_drive_mover.World.{
  At, World, Failure, IsIdle, Context, outside_call-Keeps, check_context-Keeps, store_call-Keeps,
  query-Triple, outside_call, check_context, query,
}
use baidu_drive_mover.State.Model.{StateError}
use baidu_drive_mover.State.Db.{
  Db, scope_local_cache_file, scope_baidu_batch_dir, scope_baidu_task_root,
}
use baidu_drive_mover.State.Cleanup.{
  CleanupBatch, mark_local_cache_cleanup_done, mark_baidu_batch_cleanup_done,
  record_local_cache_cleanup_failure, record_baidu_batch_cleanup_failure, authorize_batch_cleanup,
  complete_batch_cleanup,
}
use baidu_drive_mover.State.CleanupRoot.{
  mark_baidu_task_root_cleanup_done, record_baidu_task_root_cleanup_failure,
  authorize_task_root_cleanup,
}
use baidu_drive_mover.State.History.{Call, perform}
use baidu_drive_mover.Cleanup
use baidu_drive_mover.Cleanup.Permits.{MayRemove, MayDelete, IsBeingCleaned}
use baidu_drive_mover.Cleanup.{Engine, Problem, Summary}

-- A property that the calls of the engine keep, as long as the rows permit its deletions.
pub record IsGuarded {W E : Type 0} (e : Engine W E) (sha256_hex : Str → Str) (task : Str)
    (P : Db → W → Type 0) : Type 0 where
  pub idle : IsIdle e.outside P
  pub stored : (c : Call) (db : Db) (w : W) → P db w → P (perform sha256_hex c db) w
  pub listed :
      (path : Str) (db : Db) (w : W) → P db w → P db (e.list_staging_path_for_cleanup path w).0
  pub removed :
      (path : Str) (db : Db) (w : W)
      → MayRemove db task path
      → P db w
      → P db (e.remove_temp_file path w).0
  pub deleted :
      (path : Str) (db : Db) (w : W)
      → MayDelete db task path
      → P db w
      → P db (e.delete_staging_path path w).0

-- What is left behind by a call that fails; `P` while a batch is being cleaned; `P` while a path may
-- be deleted.
abbrev pub Fails : {W E : Type 0} → (Db → W → Type 0) → Failure E Problem → World W → Type 0
Fails P _ = At P

abbrev pub During : {W : Type 0} → (Db → W → Type 0) → Str → CleanupBatch → Db → W → Type 0
During P task b db w = P db w × IsBeingCleaned db task b

abbrev pub Permitted : {W : Type 0} → (Db → W → Type 0) → Str → Str → Db → W → Type 0
Permitted P task path db w = P db w × MayDelete db task path

module _ {W E : Type 0} {e : Engine W E} {sha256_hex : Str → Str} {task : Str} {P : Db → W → Type 0}
    (g : IsGuarded e sha256_hex task P) where
  pub idle-During : (b : CleanupBatch) → IsIdle e.outside (During P task b)
  idle-During b = record {
    cancelled = λ db w p. (g.idle.cancelled db w p.0, p.1);
    clock = λ db w p. (g.idle.clock db w p.0, p.1);
    fault = λ ctx db w p. (g.idle.fault ctx db w p.0, p.1);
    lost = λ ctx db w p. (g.idle.lost ctx db w p.0, p.1);
  }

  pub forget :
      {A : Type 0} {m : Effect (World W) (Failure E Problem) A} (b : CleanupBatch)
      → Keeps (At (During P task b)) m
      → Triple (At (During P task b)) m (λ _. At (During P task b)) (Fails P)
  forget b t = weaken t (λ s p. p) (λ a s q. q) (λ x s p. p.0)

  pub fail_with-Triple :
      {A : Type 0} {Q : A → World W → Type 0} (r : Str → Db → Db × Result StateError (Unit {0}))
      (x : Failure E Problem)
      → ((m : Str) (db : Db) (w : W) → P db w → P (r m db).0 w)
      → Triple (At P) (Cleanup.fail_with e r x) Q (Fails P)
  unfolding Cleanup.fail_with
  fail_with-Triple r x step =
      bind
        (ignore-Triple _
          (store_call-Keeps P e.outside g.idle Context.background _ (λ now. step (e.message x))))
        λ _. raise-Triple x (λ s p. p)

  pub local_failure-step :
      (t id m : Str) (db : Db) (w : W)
      → P db w
      → P (record_local_cache_cleanup_failure t id m db).0 w
  unfolding record_local_cache_cleanup_failure perform
  local_failure-step t id m =
      g.stored (Call.records_cleanup_object_failure t scope_local_cache_file id m)

  pub batch_failure-step :
      (t id m : Str) (db : Db) (w : W)
      → P db w
      → P (record_baidu_batch_cleanup_failure t id m db).0 w
  unfolding record_baidu_batch_cleanup_failure perform
  batch_failure-step t id m =
      g.stored (Call.records_cleanup_object_failure t scope_baidu_batch_dir id m)

  pub root_failure-step :
      (t m : Str) (db : Db) (w : W) → P db w → P (record_baidu_task_root_cleanup_failure t m db).0 w
  unfolding record_baidu_task_root_cleanup_failure perform
  root_failure-step t m = g.stored (Call.records_cleanup_object_failure t scope_baidu_task_root t m)

  pub local_done-step :
      (t id now : Str) (db : Db) (w : W)
      → P db w
      → P (mark_local_cache_cleanup_done t id now db).0 w
  unfolding mark_local_cache_cleanup_done perform
  local_done-step t id now =
      g.stored (Call.marks_cleanup_object_done t scope_local_cache_file id now)

  pub batch_done-step :
      (t id now : Str) (db : Db) (w : W)
      → P db w
      → P (mark_baidu_batch_cleanup_done t id now db).0 w
  unfolding mark_baidu_batch_cleanup_done perform
  batch_done-step t id now =
      g.stored (Call.marks_cleanup_object_done t scope_baidu_batch_dir id now)

  pub root_done-step :
      (t now : Str) (db : Db) (w : W) → P db w → P (mark_baidu_task_root_cleanup_done t now db).0 w
  unfolding mark_baidu_task_root_cleanup_done perform
  root_done-step t now = g.stored (Call.marks_cleanup_object_done t scope_baidu_task_root t now)

  pub authorize-step :
      (batch now : Str) (db : Db) (w : W)
      → P db w
      → P (authorize_batch_cleanup task batch now db).0 w
  unfolding perform
  authorize-step batch now = g.stored (Call.authorizes_batch_cleanup task batch now)

  pub authorize_root-step : (db : Db) (w : W) → P db w → P (authorize_task_root_cleanup task db).0 w
  unfolding perform
  authorize_root-step = g.stored (Call.authorizes_task_root_cleanup task)

  pub complete-step :
      (batch now : Str) (db : Db) (w : W)
      → P db w
      → P (complete_batch_cleanup task batch now db).0 w
  unfolding perform
  complete-step batch now = g.stored (Call.completes_batch_cleanup task batch now)

  pub idle-Permitted : (path : Str) → IsIdle e.outside (Permitted P task path)
  idle-Permitted path = record {
    cancelled = λ db w p. (g.idle.cancelled db w p.0, p.1);
    clock = λ db w p. (g.idle.clock db w p.0, p.1);
    fault = λ ctx db w p. (g.idle.fault ctx db w p.0, p.1);
    lost = λ ctx db w p. (g.idle.lost ctx db w p.0, p.1);
  }

  pub delete_remote-Triple :
      (path : Str) (r : Str → Db → Db × Result StateError (Unit {0}))
      → ((m : Str) (db : Db) (w : W) → P db w → P (r m db).0 w)
      → Triple (At (Permitted P task path)) (Cleanup.delete_remote e path r) (λ _. At P) (Fails P)
  unfolding Cleanup.delete_remote
  delete_remote-Triple path r step =
      handle-Triple
        (outside_call-Keeps (Permitted P task path) (e.delete_staging_path path)
          (λ s p. (g.deleted path s.db s.outside p.1 p.0, p.1)))
        (λ _. return-Triple _ (λ s p. p.0))
        (λ x.
          if-Triple (Cleanup.is_missing e x) (λ _. return-Triple tt (λ s p. p.0))
            (λ _ s p. fail_with-Triple r x step s p.0))

  pub check-Permitted :
      (path : Str)
      → Triple
          (At (Permitted P task path))
          (check_context {D = Problem} e.outside)
          (λ _. At (Permitted P task path))
          (Fails P)
  check-Permitted path =
      weaken (check_context-Keeps (Permitted P task path) e.outside (idle-Permitted path))
        (λ s p. p) (λ a s q. q) (λ x s p. p.0)

  pub list-Permitted :
      (path listed_path : Str)
      → Triple
          (At (Permitted P task path))
          (outside_call {D = Problem} (e.list_staging_path_for_cleanup listed_path))
          (λ _. At (Permitted P task path))
          (λ _. At (Permitted P task path))
  list-Permitted path listed_path =
      outside_call-Keeps (Permitted P task path) (e.list_staging_path_for_cleanup listed_path)
        (λ s p. (g.listed listed_path s.db s.outside p.0, p.1))

  pub query-Keeps :
      {A : Type 0} (f : Db → Result StateError A)
      → Triple (At P) (query {D = Problem} e.outside Context.caller f) (λ _. At P) (Fails P)
  query-Keeps f =
      weaken (query-Triple P e.outside g.idle (λ _ _. Unit {0}) Context.caller f (λ db w a p h. tt))
        (λ s p. p) (λ a s q. q.0) (λ x s p. p)
