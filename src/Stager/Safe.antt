-- ===== src/Stager/Safe.antt =====
-- The executor of internal/staging as a whole: what its calls keep, and the errors that it may return.
use baidu_drive_mover.Base.{
  ◌≡◌, refl, sym, subst, ℕ, Bool, false, inl, inr, List, [], ◌∷◌, Result, ok, err, All, is_empty,
  ◌≢◌, ok-eq, ap, ◌∙◌,
}
use baidu_drive_mover.Base.Effects.{
  After, After-weaken, Triple, bind, return-Triple, raise-Triple, if-Triple, After-both, handle,
  return, handle-Triple, After-state, After-err,
}
use baidu_drive_mover.Text.{Str}
use baidu_drive_mover.World.{
  At, World, Failure, IsIdle, Context, store_call, outside_call-Keeps, store_call-Keeps, query,
  store_call-Triple,
}
use baidu_drive_mover.World.Foreign.{outside_call-Foreign, store_call-Foreign}
use baidu_drive_mover.State.Model.{File, Batch, StateError}
use baidu_drive_mover.State.Db.{Db}
use baidu_drive_mover.State.History.{Call, perform}
use baidu_drive_mover.Stager
use baidu_drive_mover.Stager.{Executor, Problem}
use baidu_drive_mover.Stager.Parts.{OneOf}
use baidu_drive_mover.Stager.Careful.{IsCareful, Careful, Failed, Foreign-Careful, IsReal, foreign}
use baidu_drive_mover.State.Staging.{start_batch, complete_batch, fail_batch, staging_batches}
use baidu_drive_mover.Stager.Transfers.{reconcile-Careful, transfer_subset-Careful}

module _ {W E : Type 0} {x : Executor W E} {sha256_hex : Str → Str} {b : Batch}
    {P : Db → W → Type 0} (c : IsCareful x sha256_hex b P) where
  start-step :
      (now : Str) (db : Db) (w : W) → P db w → P (start_batch b.task_id b.batch_id now db).0 w
  unfolding perform
  start-step now = c.stored (Call.starts_batch b.task_id b.batch_id now)

  complete-step :
      (now : Str) (db : Db) (w : W) → P db w → P (complete_batch b.task_id b.batch_id now db).0 w
  unfolding perform
  complete-step now = c.stored (Call.completes_batch b.task_id b.batch_id now)

  fail-step :
      (message : Str) (permanent : Bool) (now : Str) (db : Db) (w : W)
      → P db w
      → P (fail_batch b.task_id b.batch_id message permanent now db).0 w
  unfolding perform
  fail-step message permanent now =
      c.stored (Call.fails_batch b.task_id b.batch_id message permanent now)

  store-Careful :
      {A : Type 0} (ctx : Context) (m : Str → Db → Db × Result StateError A)
      → ((now : Str) (db : Db) (w : W) → P db w → P (m now db).0 w)
      → Careful P (store_call {D = Problem} x.outside ctx m)
  store-Careful ctx m step =
      Foreign-Careful P _ (store_call-Keeps P x.outside c.idle ctx m step)
        (store_call-Foreign x.outside ctx m)

  pub stage_batch-Careful : Careful P (Stager.stage_batch x b)
  unfolding Stager.stage_batch
  stage_batch-Careful =
      bind
        (if-Triple (is_empty b.files) (λ _. raise-Triple _ (λ s p. (p, refl)))
          (λ _. return-Triple tt (λ s p. p)))
        λ _. bind (store-Careful Context.caller _ start-step) λ _.
          bind
            (Foreign-Careful P _
              (outside_call-Keeps P (x.ensure_staging_directory b.baidu_staging_path)
                (λ s p. c.ensured s.db s.outside p))
              (outside_call-Foreign (x.ensure_staging_directory b.baidu_staging_path)))
            λ _. bind (reconcile-Careful c) λ missing.
              bind (λ s p. transfer_subset-Careful c missing p.1 s p.0)
                λ _. bind (reconcile-Careful c) λ left.
                  bind {Q = λ _. At P}
                    (if-Triple (is_empty left) (λ _. return-Triple tt (λ s p. p.0))
                      (λ _. raise-Triple _ (λ s p. (p.0, refl))))
                    λ _. store-Careful Context.caller _ complete-step

  record_failure-Careful :
      (e : Failure E Problem)
      → Triple (Failed P e) (Stager.record_failure x b e) (λ _. At P) (Failed P)
  unfolding Stager.record_failure
  record_failure-Careful e s p =
      (bind (store-Careful Context.background _ (fail-step (x.message e) (Stager.is_permanent e)))
          λ _. raise-Triple e (λ s q. (q, p.1)))
        s p.0

  pub batch-Careful : Careful P (handle (Stager.stage_batch x b) return (Stager.record_failure x b))
  batch-Careful =
      handle-Triple stage_batch-Careful (λ _. return-Triple _ (λ s p. p)) record_failure-Careful

module _ {W E : Type 0} (x : Executor W E) (sha256_hex : Str → Str) (P : Db → W → Type 0) where
  stage_batches-Careful :
      (bs : List Batch)
      → ((b : Batch) → OneOf b bs → IsCareful x sha256_hex b P)
      → Careful P (Stager.stage_batches x bs)
  unfolding Stager.stage_batches
  stage_batches-Careful [] careful = return-Triple tt (λ s p. p)
  stage_batches-Careful (b ∷ bs) careful =
      bind (batch-Careful (careful b (inl refl)))
        λ _. stage_batches-Careful bs (λ d m. careful d (inr m))

  -- `P` with a database that stays as it is.
  abbrev Fixed : Db → Db → W → Type 0
  Fixed start db v = P db v × (db ≡ start)

  Fixed-IsIdle : (start : Db) → IsIdle x.outside P → IsIdle x.outside (Fixed start)
  Fixed-IsIdle start idle = record {
    cancelled = λ db v p. (idle.cancelled db v p.0, p.1);
    clock = λ db v p. (idle.clock db v p.0, p.1);
    fault = λ ctx db v p. (idle.fault ctx db v p.0, p.1);
    lost = λ ctx db v p. (idle.lost ctx db v p.0, p.1);
  }

  -- `w` is the world at the start: the batches are those of its database.
  run_executor-Careful :
      (task : Str) (w : World W)
      → IsIdle x.outside P
      → ((b : Batch) → OneOf b (staging_batches task w.db) → IsCareful x sha256_hex b P)
      → At P w
      → After (λ _. At P) (Failed P) (Stager.run_executor x task w)
  unfolding Stager.run_executor query
  run_executor-Careful task w idle careful p =
      bind {Q = λ batches s. At P s × (batches ≡ staging_batches task w.db)}
        (λ s q.
          After-weaken
            (After-both
              (store_call-Triple (Fixed w.db) x.outside (Fixed-IsIdle w.db idle)
                (λ bs db. bs ≡ staging_batches task db) Context.caller _ (λ _ _ _ r. r)
                (λ now db v bs r h. sym (ok-eq h)) s q)
              (store_call-Foreign x.outside Context.caller _ s tt))
            (λ bs t r. (r.0.0.0, r.0.1 ∙ ap (staging_batches task) r.0.0.1))
            (λ e t r. (r.0.0, foreign P e r.1)))
        (λ batches s q.
          stage_batches-Careful batches (λ b m. careful b (subst (OneOf b) q.1 m)) s q.0)
        w (p, refl)

-- Take any property of the database and the outside that is kept by every method of the store, by
-- the clock, the driver and the pauses, and, for every batch of the task that waits to be staged in
-- the database at the start, by making and listing the batch's own directory, and by a transfer into
-- it of one file or more of the batch under their own source IDs. Then Run keeps it, whether it
-- succeeds or fails: so Run transfers nothing but files of these batches, and each only into the
-- directory of its batch.
pub run_executor-Transfers :
    {W E : Type 0} (x : Executor W E) (sha256_hex : Str → Str) (P : Db → W → Type 0) (task : Str)
    (w : World W)
    → IsIdle x.outside P
    → ((d : ℕ) (db : Db) (w : W) → P db w → P db (x.sleep d w).0)
    → ((c : Call) (db : Db) (w : W) → P db w → P (perform sha256_hex c db) w)
    → ((b : Batch) (db : Db) (v : W)
        → OneOf b (staging_batches task w.db)
        → P db v
        → P db (x.ensure_staging_directory b.baidu_staging_path v).0
          × P db (x.list_staging_directory b.baidu_staging_path v).0)
    → ((b : Batch) (fs : List File) (ids : List ℕ) (db : Db) (v : W)
        → OneOf b (staging_batches task w.db)
        → Stager.source_ids fs ≡ ok ids
        → All (λ f. OneOf f b.files) fs
        → is_empty fs ≡ false
        → P db v
        → P db (x.transfer_files ids b.baidu_staging_path v).0)
    → At P w
    → At P (Stager.run_executor x task w).0
run_executor-Transfers x sha256_hex P task w idle slept stored directories transferred p =
    After-state (At P)
      (run_executor-Careful x sha256_hex P task w idle
        (λ b m. record {
          idle = idle;
          slept = slept;
          stored = stored;
          ensured = λ db v p. (directories b db v m p).0;
          listed = λ db v p. (directories b db v m p).1;
          transferred = λ fs ids db v known part some_files p.
              transferred b fs ids db v m known part some_files p;
        })
        p)
      (λ _ _ q. q) (λ _ _ q. q.0)

-- Run ends, whatever Baidu answers: the recursion of the transfers, which starts over with all
-- attempts after every progress and splits lists into smaller ones, needs no more fuel than the
-- number of files that were missing; and the error behind the retry loop is never returned.
pub run_executor-ends :
    {W E : Type 0} (x : Executor W E) (task : Str) (w : World W) (p : Problem)
    → (Stager.run_executor x task w).1 ≡ err (Failure.found p)
    → (p ≢ Problem.out_of_fuel) × (p ≢ Problem.retry_exhausted)
run_executor-ends {W} {E} x task w p h =
    let idle : IsIdle x.outside (λ _ _. Unit {0}) = record {
      cancelled = λ _ _ _. tt;
      clock = λ _ _ _. tt;
      fault = λ _ _ _ _. tt;
      lost = λ _ _ _ _. tt;
    } in
    let (_, real) =
      After-err
        (run_executor-Careful x (λ s. s) (λ _ _. Unit {0}) task w idle
          (λ b m. record {
            idle = idle;
            slept = λ _ _ _ _. tt;
            stored = λ _ _ _ _. tt;
            ensured = λ _ _ _. tt;
            listed = λ _ _ _. tt;
            transferred = λ _ _ _ _ _ _ _ _. tt;
          })
          tt)
        h in
    (λ e. cc (subst IsReal e real), λ e. cc (subst IsReal e real))
