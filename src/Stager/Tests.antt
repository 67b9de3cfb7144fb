-- ===== src/Stager/Tests.antt =====
-- The executor run on a small world: the contents of the staging directory.
use baidu_drive_mover.Base.{
  refl, ◌≡◌, ◌≢◌, ◌≤◌, ◌<◌, ℕ, true, false, List, [], ◌∷◌, none, some, ok, err, All, is_empty,
  length, flatten, inl, inr, ap, subst, Result, ok-eq, err≢ok, arith, ◌==◌, if◌then◌else◌,
}
use baidu_drive_mover.Base.Effects.{continue, ◌>>=◌, return, raise, lift, caught, handled, handle}
use baidu_drive_mover.Text.{Str, bytes}
use baidu_drive_mover.World.{
  World, Failure, report, outside_call, read_clock, run_store, of_store, store_call, query, At,
}
use baidu_drive_mover.Baidu.Remote.{RemoteFile}
use baidu_drive_mover.State.Model.{File, FileStatus, Batch, BatchStatus}
use baidu_drive_mover.State.Db.{Db, empty_db, batch_files_of}
use baidu_drive_mover.State.Staging.{
  with_files, staging_batches, staging_confirmation_already_consumed,
}
use baidu_drive_mover.State.History.{Call}
use baidu_drive_mover.State.Tests.{
  program, play, now, batch, digest, task, manifest_file, staged_file_row,
}
use baidu_drive_mover.Stager
use baidu_drive_mover.Stager.{Executor, Problem}
use baidu_drive_mover.Stager.Parts.{OneOf, pieces_lem}
use baidu_drive_mover.Stager.Source.{digits, unsigned, signed, positive, source_id}
use baidu_drive_mover.Stager.Safe.{run_executor-Transfers, run_executor-ends}
use baidu_drive_mover.Stager.Staged.{stage_batch-AllConfirmed}

-- Opens what the executor computes with.
staging : Unit {0}
unfolding program continue ◌>>=◌ return raise lift caught handled handle report outside_call
    read_clock run_store of_store store_call query with_files staging_batches digits unsigned signed
    positive source_id Stager.is_permanent Stager.backoff Stager.source_ids Stager.intersect_missing
    Stager.check_names Stager.put_staged Stager.agrees Stager.match_remote Stager.staged_of
    Stager.missing_files Stager.of_problem Stager.pieces Stager.chunk_size Stager.reconcile
    Stager.for_each Stager.transfer_split Stager.go_on Stager.after_error Stager.after_transfer
    Stager.attempt_transfer Stager.if_any Stager.transfer_loop Stager.transfer_subset
    Stager.stage_batch Stager.record_failure Stager.stage_batches Stager.run_executor
staging = tt

abbrev object : ℕ → RemoteFile
object id = record {
  fs_id = 9;
  name = bytes "a.txt";
  path = [];
  size = some (if id == 7 then 5 else 6);
  md5 = [];
  is_dir = false;
}

-- A transfer puts an object for the first ID into the directory.
abbrev transfer : List ℕ → List RemoteFile → List RemoteFile
transfer [] w = w
transfer (id ∷ _) w = object id ∷ w

abbrev small_executor : Executor (List RemoteFile) ℕ
small_executor = record {
  outside = record {
    cancelled = λ w. (w, none);
    clock = λ w. (w, now);
    fault = λ _ w. (w, none);
    lost = λ _ w. (w, none);
  };
  ensure_staging_directory = λ path w. (w, ok tt);
  list_staging_directory = λ path w. (w, ok w);
  transfer_files = λ ids path w. (transfer ids w, ok tt);
  sleep = λ _ w. (w, none);
  transfer_limit = λ _. none;
  ends_transfer = λ _. false;
  is_conflict = λ _. false;
  message = λ _. bytes "failed";
  max_attempts = 0;
}

abbrev planned_db : Db
planned_db =
    play
      (Call.creates_task task none now
        ∷ Call.upserts_manifest_page (bytes "t1") (bytes "/d" ∷ []) (manifest_file ∷ []) now
        ∷ Call.plans_batches (bytes "t1") now 100
        ∷ [])
      empty_db

abbrev start : World (List RemoteFile)
start = record { db = planned_db; outside = [] }

stages : (Stager.run_executor small_executor (bytes "t1") start).1 ≡ ok tt
unfolding staging
stages = refl

arrives : (Stager.run_executor small_executor (bytes "t1") start).0.outside ≡ object 7 ∷ []
unfolding staging
arrives = refl

-- Something else lies in the directory.
abbrev occupied : World (List RemoteFile)
occupied = record { db = planned_db; outside = object 8 ∷ [] }

conflicts :
    (Stager.run_executor small_executor (bytes "t1") occupied).1
    ≡ err (Failure.found Problem.staging_conflict)
unfolding staging
conflicts = refl

run_executor-ends_example :
    (Problem.staging_conflict ≢ Problem.out_of_fuel)
    × (Problem.staging_conflict ≢ Problem.retry_exhausted)
run_executor-ends_example =
    run_executor-ends small_executor (bytes "t1") occupied Problem.staging_conflict conflicts

abbrev planned_batch : Batch
planned_batch = record {
  task_id = bytes "t1";
  batch_id = batch;
  logical_parent = bytes "/d";
  baidu_staging_path = bytes "/BaiduDriveMover/t1/b-0123456789abcdef0123";
  status = BatchStatus.pending;
  file_count = 1;
  total_bytes = 5;
  retry_count = 0;
  last_error = [];
  files = record staged_file_row { status = FileStatus.planned; baidu_staging_path = [] } ∷ [];
}

stages_batch : (Stager.stage_batch small_executor planned_batch start).1 ≡ ok tt
unfolding staging
stages_batch = refl

stage_batch-AllConfirmed_example :
    (is_empty planned_batch.files ≡ false)
    × All
        (λ f. staging_confirmation_already_consumed f.status ≡ true)
        (batch_files_of
          (Stager.stage_batch small_executor planned_batch start).0.db
          (bytes "t1")
          batch)
stage_batch-AllConfirmed_example =
    stage_batch-AllConfirmed small_executor planned_batch start stages_batch

-- The small world with a list of the transfers, of their IDs and their directories.
record Transfers : Type 0 where
  objects : List RemoteFile
  made : List (List ℕ × Str)

abbrev logging_executor : Executor Transfers ℕ
logging_executor = record {
  outside = record {
    cancelled = λ w. (w, none);
    clock = λ w. (w, now);
    fault = λ _ w. (w, none);
    lost = λ _ w. (w, none);
  };
  ensure_staging_directory = λ path w. (w, ok tt);
  list_staging_directory = λ path w. (w, ok w.objects);
  transfer_files = λ ids path w.
      (record { objects = transfer ids w.objects; made = (ids, path) ∷ w.made }, ok tt);
  sleep = λ _ w. (w, none);
  transfer_limit = λ _. none;
  ends_transfer = λ _. false;
  is_conflict = λ _. false;
  message = λ _. bytes "failed";
  max_attempts = 0;
}

abbrev before_transfers : World Transfers
before_transfers = record { db = planned_db; outside = record { objects = []; made = [] } }

makes_one_transfer :
    (Stager.run_executor logging_executor (bytes "t1") before_transfers).0.outside.made
    ≡ (7 ∷ [], planned_batch.baidu_staging_path) ∷ []
unfolding staging
makes_one_transfer = refl

-- Every transfer is of the one file, and goes into the directory of its batch.
abbrev AllOwn : Db → Transfers → Type 0
AllOwn db w =
    All (λ (ids, path). All (λ i. i ≡ 7) ids × (path ≡ planned_batch.baidu_staging_path)) w.made

the_batch :
    (b : Batch)
    → OneOf b (staging_batches (bytes "t1") planned_db)
    → (b.baidu_staging_path ≡ planned_batch.baidu_staging_path) × (b.files ≡ planned_batch.files)
unfolding staging
the_batch b (inr never) = elim never [ ]
the_batch b (inl e) = (ap (λ (c : Batch). c.baidu_staging_path) e, ap (λ (c : Batch). c.files) e)

one_more :
    (r : Result Problem (List ℕ)) {ids : List ℕ}
    → ((known : List ℕ) → r ≡ ok known → All (λ i. i ≡ 7) known)
    → elim r as (λ _. Result Problem (List ℕ)) [ ok known ↦ ok (7 ∷ known) | err p ↦ err p ]
      ≡ ok ids
    → All (λ i. i ≡ 7) ids
one_more (ok known) all h = subst (All (λ i. i ≡ 7)) (ok-eq h) (refl, all known refl)
one_more (err p) all h = absurd (err≢ok h)

the_id :
    (fs : List File) (ids : List ℕ)
    → Stager.source_ids fs ≡ ok ids
    → All (λ f. OneOf f planned_batch.files) fs
    → All (λ i. i ≡ 7) ids
unfolding staging
the_id [] ids h all = subst (All (λ i. i ≡ 7)) (ok-eq h) tt
the_id (f ∷ fs) ids h (inr never, all) = elim never [ ]
the_id (f ∷ fs) ids h (inl e, all) =
    one_more (Stager.source_ids fs) (λ known k. the_id fs known k all)
      (subst (λ g. Stager.source_ids (g ∷ fs) ≡ ok ids) e h)

run_executor-Transfers_example :
    At AllOwn (Stager.run_executor logging_executor (bytes "t1") before_transfers).0
run_executor-Transfers_example =
    run_executor-Transfers logging_executor digest AllOwn (bytes "t1") before_transfers
      (record {
        cancelled = λ _ _ p. p;
        clock = λ _ _ p. p;
        fault = λ _ _ _ p. p;
        lost = λ _ _ _ p. p;
      })
      (λ d db w p. p) (λ c db w p. p) (λ b db w m p. (p, p))
      (λ b fs ids db w m known part some_files p.
        let (path, files) = the_batch b m in
        ((the_id fs ids known (subst (λ own. All (λ f. OneOf f own) fs) files part), path), p))
      tt

abbrev three_files : List File
three_files = staged_file_row ∷ staged_file_row ∷ staged_file_row ∷ []

pieces_example :
    (flatten
        (Stager.pieces (length three_files) (Stager.chunk_size 1 (length three_files)) three_files)
      ≡ three_files)
    × All
        (λ c. (length c < length three_files) × (0 < 1 → 1 < length three_files → length c ≤ 1))
        (Stager.pieces (length three_files) (Stager.chunk_size 1 (length three_files)) three_files)
pieces_example = pieces_lem 1 three_files (omega arith)
