-- ===== src/State/Quiet/Planning.antt =====
-- PlanBatches and PlanBatchesBounded, as changes of the store: a new row of batch_files names a
-- file that the same turn of the loop has found.
use baidu_drive_mover.Base.{
  ℕ, ◌+◌, ◌<◌, ◌≡◌, refl, true, Bool, Bool-cases, inl, inr, List, [], ◌∷◌, ◌++◌, ok, arith, ◌&&◌,
  &&-both, ◌==◌, All-append, count_where, update_where,
}
use baidu_drive_mover.Text.{Str}
use baidu_drive_mover.State.Model.{File, StateError}
use baidu_drive_mover.State.Db.{Db, BatchRow, BatchFile, guard, update_files, is_file}
use baidu_drive_mover.State.Rows.{first_where-count}
use baidu_drive_mover.State.Evolves.{Evolves, RowsEvolve-update}
use baidu_drive_mover.State.Quiet.{
  Quiet, QuietAt, quiet, Quiet-same, Quiet-after, HasFile, >>=-eq-ok, IsLinked-evolve, in_tx-Quiet,
}
use baidu_drive_mover.State.Planning.{
  is_discovered, mark_planned, insert_batch_file, plan_file, plan_files, insert_batch, plan_chunk,
  plan_all, plan_discovered, plan_with, plan_batches, plan_batches_bounded,
}

abbrev new_link : Str → Str → Str → ℕ → BatchFile
new_link task batch id ordinal = record {
  task_id = task;
  batch_id = batch;
  file_id = id;
  ordinal = ordinal;
}

-- The rows that a turn of the loop updates.
abbrev takes : Str → File → File → Bool
takes task f g = is_file task f.file_id g && is_discovered g.status

abbrev planned_files : Str → Str → File → Db → List File
planned_files task now f db = update_where (takes task f) (mark_planned now) db.files

planned-Evolves :
    (task now : Str) (f g : File) → takes task f g ≡ true → Evolves g (mark_planned now g)
planned-Evolves task now f g h = ground arith

insert_facts :
    (task batch id : Str) (ordinal : ℕ) (db mid : Db) (a : Unit {0})
    → insert_batch_file task batch id ordinal db ≡ ok (a, mid)
    → record db { batch_files = db.batch_files ++ new_link task batch id ordinal ∷ [] } ≡ mid
unfolding insert_batch_file
insert_facts task batch id ordinal db mid a h = ground arith

update_facts :
    (task now : Str) (f : File) (mid last after : Db) (n : ℕ) (a : Unit {0})
    → update_files (takes task f) (mark_planned now) mid ≡ ok (n, last)
    → guard (n == 1) StateError.changed_concurrently last ≡ ok (a, after)
    → (record mid { files = planned_files task now f mid } ≡ after)
      × (0 < count_where (takes task f) mid.files)
unfolding update_files guard
update_facts task now f mid last after n a h k = ground arith

-- A turn that succeeds has found the file, and added one row to batch_files.
plan_file_facts :
    (task batch now : Str) (ordinal : ℕ) (f : File) (db after : Db) (a : Unit {0})
    → plan_file task batch now ordinal f db ≡ ok (a, after)
    → (0 < count_where (takes task f) db.files)
      × (record db {
        files = planned_files task now f db;
        batch_files = db.batch_files ++ new_link task batch f.file_id ordinal ∷ [];
      }
          ≡ after)
unfolding plan_file
plan_file_facts task batch now ordinal f db after a h =
    let (_, mid, inserted, rest) =
      >>=-eq-ok (insert_batch_file task batch f.file_id ordinal) _ db h in
    let (n, last, updated, checked) =
      >>=-eq-ok (update_files (takes task f) (mark_planned now)) _ mid rest in
    let link = insert_facts task batch f.file_id ordinal db mid _ inserted in
    let (e, counted) = update_facts task now f mid last after n a updated checked in
    (rw (← link) at counted, rw (← link) at e)

plan_file-Quiet :
    (task batch now : Str) (ordinal : ℕ) (f : File) (db : Db)
    → QuietAt (plan_file task batch now ordinal f) db
plan_file-Quiet task batch now ordinal f db = record {
  holds = λ a after h.
      let (found, e) = plan_file_facts task batch now ordinal f db after a h in
      let evolves =
        RowsEvolve-update (takes task f) (mark_planned now) db.files (planned-Evolves task now f) in
      let (g, at) =
        first_where-count (takes task f) (is_file task f.file_id) db.files
          (λ x t. (&&-both _ _ t).0) found in
      let (g', at', _) = evolves.later task f.file_id g at in
      Quiet-after
        (record {
          evolves = evolves;
          grants_kept = refl;
          links_kept = λ links.
              All-append (HasFile (planned_files task now f db)) db.batch_files _
                (IsLinked-evolve db.files _ db.batch_files evolves links) ((g', at'), tt);
        })
        e;
}

plan_files-Quiet :
    (task batch now : Str) (ordinal : ℕ) (fs : List File) (db : Db)
    → QuietAt (plan_files task batch now ordinal fs) db
unfolding plan_files
plan_files-Quiet task batch now ordinal [] db = search quiet
plan_files-Quiet task batch now ordinal (f ∷ fs) db =
    let later = plan_files-Quiet task batch now (ordinal + 1) fs in
    search (quiet, plan_file-Quiet, later)

insert_batch-Quiet : (b : BatchRow) (db : Db) → QuietAt (insert_batch b) db
unfolding insert_batch
insert_batch-Quiet b db = record {
  holds = λ a after h. Quiet-same db after (ground arith) (ground arith) (ground arith);
}

module _ (sha256_hex : Str → Str) (task now : Str) where
  plan_chunk-Quiet : (c : List File) (db : Db) → QuietAt (plan_chunk sha256_hex task now c) db
  unfolding plan_chunk
  plan_chunk-Quiet [] db = search quiet
  plan_chunk-Quiet (f ∷ fs) db = search (quiet, insert_batch-Quiet, plan_files-Quiet) depth 9

  plan_all-Quiet : (cs : List (List File)) (db : Db) → QuietAt (plan_all sha256_hex task now cs) db
  unfolding plan_all
  plan_all-Quiet [] db = search quiet
  plan_all-Quiet (c ∷ cs) db =
      let later = plan_all-Quiet cs in search (quiet, plan_chunk-Quiet, later) depth 9

  plan_discovered-Quiet :
      (cut : List File → List (List File)) (fs : List File) (db : Db)
      → QuietAt (plan_discovered sha256_hex task now cut fs) db
  unfolding plan_discovered
  plan_discovered-Quiet cut [] db = search quiet
  plan_discovered-Quiet cut (f ∷ fs) db = search (quiet, plan_all-Quiet) depth 9

  pub plan_with-Quiet :
      (cut : List File → List (List File)) (max_files : ℕ) (db : Db)
      → Quiet db (plan_with sha256_hex task now cut max_files db).0
  unfolding plan_with
  plan_with-Quiet cut max_files db =
      in_tx-Quiet _ db (search (quiet, plan_discovered-Quiet) depth 9)

  pub plan_batches-Quiet :
      (max_files : ℕ) (db : Db) → Quiet db (plan_batches sha256_hex task now max_files db).0
  unfolding plan_batches
  plan_batches-Quiet max_files db = plan_with-Quiet _ max_files db

  pub plan_batches_bounded-Quiet :
      (max_files max_bytes : ℕ) (db : Db)
      → Quiet db (plan_batches_bounded sha256_hex task now max_files max_bytes db).0
  unfolding plan_batches_bounded
  plan_batches_bounded-Quiet max_files max_bytes db = elim (Bool-cases (max_bytes == 0)) [
    | inl unbounded ↦ rw unbounded (plan_batches-Quiet max_files db)
    | inr bounded ↦ rw bounded (plan_with-Quiet _ max_files db)
  ]
