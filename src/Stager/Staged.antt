-- ===== src/Stager/Staged.antt =====
-- A batch that the executor of internal/staging has staged.
use baidu_drive_mover.Base.{
  ◌≡◌, sym, ap, subst, ◌∙◌, true, false, not, All, All-map, is_empty, count_where-none, ok, ok-eq,
  ==→eq, arith,
}
use baidu_drive_mover.Base.Effects.{
  Effect, After-weaken, After-any, After-ok, Triple, bind, return-Triple, raise-Triple, if-Triple,
}
use baidu_drive_mover.Text.{Str}
use baidu_drive_mover.World.{World, Failure, IsIdle, Context, store_call, store_call-Triple}
use baidu_drive_mover.State.Model.{FileStatus, Batch}
use baidu_drive_mover.State.Db.{Db, batch_files_of, update_batches}
use baidu_drive_mover.State.Invert.{get_then, guard_then, in_tx-ok, guard_lem}
use baidu_drive_mover.State.Quiet.{>>=-eq-ok}
use baidu_drive_mover.State.Staging.{complete_batch, staging_confirmation_already_consumed}
use baidu_drive_mover.Stager
use baidu_drive_mover.Stager.{Executor, Problem}

-- Every file of the batch is confirmed in the staging directory, or further.
abbrev AllConfirmed : Db → Str → Str → Type 0
AllConfirmed db task batch =
    All (λ f. staging_confirmation_already_consumed f.status ≡ true) (batch_files_of db task batch)

closed :
    (status : FileStatus)
    → not (staging_confirmation_already_consumed status) ≡ false
    → staging_confirmation_already_consumed status ≡ true
closed status h = ground arith

complete_batch-AllConfirmed :
    (task batch now : Str) (db : Db)
    → (complete_batch task batch now db).1 ≡ ok tt
    → AllConfirmed (complete_batch task batch now db).0 task batch
unfolding complete_batch batch_files_of update_batches
complete_batch-AllConfirmed task batch now db h =
    let (after, ran, committed) = in_tx-ok _ db h in
    let (none_left, h1) = guard_then _ _ _ (get_then _ ran) in
    let (changed, mid, updated, h2) = >>=-eq-ok _ _ db h1 in
    let (_, kept) = guard_lem _ _ h2 in
    let before : AllConfirmed db task batch =
      All-map _ _ (batch_files_of db task batch) (λ f. closed f.status)
        (count_where-none _ (batch_files_of db task batch) (==→eq _ 0 none_left)) in
    subst (λ d. AllConfirmed d task batch)
      (sym (committed ∙ kept ∙ sym (ap (λ p. p.1) (ok-eq updated)))) before

abbrev Nothing : {W : Type 0} → Db → W → Type 0
Nothing db w = Unit {0}

module _ {W E : Type 0} (x : Executor W E) (b : Batch) where
  idle : IsIdle x.outside Nothing
  idle = record {
    cancelled = λ _ _ _. tt;
    clock = λ _ _ _. tt;
    fault = λ _ _ _ _. tt;
    lost = λ _ _ _ _. tt;
  }

  abbrev HasFiles : World W → Type 0
  HasFiles _ = is_empty b.files ≡ false

  keep :
      {A : Type 0} (m : Effect (World W) (Failure E Problem) A)
      → Triple HasFiles m (λ _. HasFiles) (λ _ _. Unit {0})
  keep m s p = After-weaken (After-any (m s)) (λ _ _ _. p) (λ _ _ _. tt)

  -- What a batch is after its staging.
  abbrev Finished : Unit {0} → World W → Type 0
  Finished _ s = (is_empty b.files ≡ false) × AllConfirmed s.db b.task_id b.batch_id

  complete-Triple :
      Triple HasFiles
        (store_call {D = Problem} x.outside Context.caller (complete_batch b.task_id b.batch_id))
        Finished
        (λ _ _. Unit {0})
  complete-Triple s p =
      After-weaken
        (store_call-Triple Nothing x.outside idle (λ _ db. AllConfirmed db b.task_id b.batch_id)
          Context.caller (complete_batch b.task_id b.batch_id) (λ _ _ _ _. tt)
          (λ now db w a q h. complete_batch-AllConfirmed b.task_id b.batch_id now db h) s tt)
        (λ a s q. (p, q.1)) (λ e s q. tt)

  stage_batch-Triple : Triple (λ _. Unit {0}) (Stager.stage_batch x b) Finished (λ _ _. Unit {0})
  unfolding Stager.stage_batch
  stage_batch-Triple =
      bind {Q = λ _. HasFiles}
        (if-Triple (is_empty b.files) (λ _. raise-Triple _ (λ s p. tt))
          (λ h. return-Triple tt (λ s p. h)))
        λ _. bind (keep _) λ _. bind (keep _) λ _.
          bind (keep _)
            λ missing. bind (keep _) λ _. bind (keep _) λ left. bind (keep _) λ _. complete-Triple

  -- If a batch is staged without an error, then it has files, and every file that the store names in
  -- it is then confirmed in the staging directory, or further on its way.
  pub stage_batch-AllConfirmed :
      (s : World W)
      → (Stager.stage_batch x b s).1 ≡ ok tt
      → (is_empty b.files ≡ false)
        × All
            (λ f. staging_confirmation_already_consumed f.status ≡ true)
            (batch_files_of (Stager.stage_batch x b s).0.db b.task_id b.batch_id)
  stage_batch-AllConfirmed s h = After-ok (stage_batch-Triple s tt) h
