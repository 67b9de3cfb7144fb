-- ===== src/Cleanup/Done.antt =====
-- A batch that Run of internal/cleanup counts as done.
use baidu_drive_mover.Base.{refl, ◌≡◌, sym, ap, subst, ◌∙◌, true, some, ok, some-eq}
use baidu_drive_mover.Base.Effects.{
  Triple, After-ok, After-weaken, After-any, Effect, bind, weaken, return-Triple,
}
use baidu_drive_mover.Text.{Str}
use baidu_drive_mover.World.{World, Failure, store_call, IsIdle, Context, store_call-Triple}
use baidu_drive_mover.State.Model.{File, FileStatus}
use baidu_drive_mover.State.Db.{Db, BatchRow, in_batch, find_file}
use baidu_drive_mover.State.Rows.{find-updated}
use baidu_drive_mover.State.Cleanup.{CleanupBatch, complete_batch_cleanup, authorize_batch_cleanup}
use baidu_drive_mover.State.Cleanup.Completed.{
  mark_done, complete_batch_cleanup_facts, complete_batch_cleanup_lem,
}
use baidu_drive_mover.State.Cleanup.Authorized.{authorize_batch_cleanup_lem}
use baidu_drive_mover.Cleanup
use baidu_drive_mover.Cleanup.{Engine, Problem}

-- Every file that the batch names is DONE.
abbrev AllDone : Db → Str → Str → Type 0
AllDone db task batch =
    (id : Str) (f : File)
    → in_batch db task batch id ≡ true
    → find_file task id db ≡ some f
    → f.status ≡ FileStatus.done

complete_batch_cleanup-AllDone :
    (task batch now : Str) (db : Db)
    → (complete_batch_cleanup task batch now db).1 ≡ ok tt
    → AllDone (complete_batch_cleanup task batch now db).0 task batch
unfolding in_batch find_file
complete_batch_cleanup-AllDone task batch now db h id f mine found =
    let (_, after) = complete_batch_cleanup_facts task batch now db h in
    let (_, marks) = complete_batch_cleanup_lem task batch now db h in
    let (r, before, _) =
      find-updated task id _ (mark_done now) db.files (λ x _. (refl, refl))
        (subst (λ (d : Db). find_file task id d ≡ some f) after found) in
    let marked =
      marks id r (subst (λ (d : Db). in_batch d task batch id ≡ true) after mine) before in
    ap (λ (x : File). x.status) (some-eq (sym found ∙ marked))

abbrev Nothing : {W : Type 0} → Db → W → Type 0
Nothing db w = Unit {0}

module _ {W E : Type 0} (e : Engine W E) (task : Str) where
  idle : IsIdle e.outside Nothing
  idle = record {
    cancelled = λ _ _ _. tt;
    clock = λ _ _ _. tt;
    fault = λ _ _ _ _. tt;
    lost = λ _ _ _ _. tt;
  }

  -- The batch that is cleaned is the one of the candidate.
  abbrev Same : BatchRow → CleanupBatch → World W → Type 0
  Same row b _ = b.batch_id ≡ row.batch_id

  clean_candidate-Triple :
      (row : BatchRow)
      → Triple
          (λ _. Unit {0})
          (Cleanup.clean_candidate e task row)
          (λ b s. Same row b s × AllDone s.db task b.batch_id)
          (λ _ _. Unit {0})
  unfolding Cleanup.clean_candidate
  clean_candidate-Triple row =
      bind {Q = Same row}
        (weaken
          (store_call-Triple Nothing e.outside idle (λ b _. b.batch_id ≡ row.batch_id)
            Context.caller (authorize_batch_cleanup task row.batch_id) (λ _ _ _ _. tt)
            (λ now db w b p h.
              let (_, _, a) = authorize_batch_cleanup_lem task row.batch_id now db b h in
              a.same_batch))
          (λ s p. tt) (λ b s q. q.1) (λ x s p. tt))
        λ b. bind {Q = λ _. Same row b} (keep b _) λ _. bind {Q = λ _. Same row b} (keep b _) λ _.
          bind {Q = λ _. Same row b} (keep b _) λ _.
            bind {Q = λ _ s. Same row b s × AllDone s.db task b.batch_id} (complete b)
              λ _. return-Triple b (λ s q. q)
    where
      keep :
          {A : Type 0} (b : CleanupBatch) (m : Effect (World W) (Failure E Problem) A)
          → Triple (Same row b) m (λ _. Same row b) (λ _ _. Unit {0})
      keep b m s p = After-weaken (After-any (m s)) (λ _ _ _. p) (λ _ _ _. tt)

      complete :
          (b : CleanupBatch)
          → Triple
              (Same row b)
              (store_call {D = Problem} e.outside Context.caller
                (complete_batch_cleanup task b.batch_id))
              (λ _ s. Same row b s × AllDone s.db task b.batch_id)
              (λ _ _. Unit {0})
      complete b s p =
          After-weaken
            (store_call-Triple Nothing e.outside idle (λ _ db. AllDone db task b.batch_id)
              Context.caller (complete_batch_cleanup task b.batch_id) (λ _ _ _ _. tt)
              (λ now db w a q h. complete_batch_cleanup-AllDone task b.batch_id now db h) s tt)
            (λ a s q. (p, q.1)) (λ x s q. tt)

  -- When the loop of Run has dealt with a candidate and goes on, then the batch that it counts is the
  -- candidate's, and every file that the store names in this batch and finds is DONE.
  pub clean_candidate-AllDone :
      (row : BatchRow) (w : World W) (b : CleanupBatch)
      → (Cleanup.clean_candidate e task row w).1 ≡ ok b
      → (b.batch_id ≡ row.batch_id)
        × ((id : Str) (f : File)
            → in_batch (Cleanup.clean_candidate e task row w).0.db task b.batch_id id ≡ true
            → find_file task id (Cleanup.clean_candidate e task row w).0.db ≡ some f
            → f.status ≡ FileStatus.done)
  clean_candidate-AllDone row w b h = After-ok (clean_candidate-Triple row w tt) h
