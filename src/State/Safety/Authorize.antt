-- ===== src/State/Safety/Authorize.antt =====
-- AuthorizeBatchCleanup keeps the safety invariant: what it allows belongs to files that it checked.
use mathlib.Core.Path.{subst₂}
use mathlib.Core.Bool.{false≢true}
use baidu_drive_mover.Base.{
  ◌≡◌, refl, sym, ap, subst, ◌∙◌, Bool, true, false, Bool-cases, inl, inr, ◌&&◌, &&-both, List, [],
  ◌∷◌, some, Result, ok, err, Result-cases, if◌then◌else◌, arith, All, All-map, exists_where,
  first_where, update_where,
}
use baidu_drive_mover.Text.{Str, str_eq, str_eq→eq, str_eq_refl}
use baidu_drive_mover.State.Model.{File, FileStatus, StateError}
use baidu_drive_mover.State.Db.{
  Db, BatchFile, CleanupObject, in_tx, is_file, is_batch_file, is_object, in_batch,
  is_file_of_batch, batch_files_of, register_object, update_files, update_objects,
  scope_local_cache_file, scope_baidu_batch_dir, transactions,
}
use baidu_drive_mover.State.Invert.{get_then, expect_then, guard_then, lift_then, return_lem}
use baidu_drive_mover.State.Rows.{find-update_same, first_where_sound, is_file→keys}
use baidu_drive_mover.State.Evolves.{Evolves, RowsEvolve-update, RowsEvolve, RowsEvolve-refl}
use baidu_drive_mover.State.Grants.{grants, grants-allow}
use baidu_drive_mover.State.Quiet.{HasFile, IsLinked, IsLinked-evolve, >>=-eq-ok}
use baidu_drive_mover.State.Quiet.Cleanup.{backfill_local_objects-Quiet}
use baidu_drive_mover.State.Cleanup.{
  check_cleanup_files, check_batch, backfill_local_object, backfill_local_objects, allow_cleanup,
  is_drive_verified, is_local_object_of_batch, mark_pending_and_allow, authorize_tx,
  authorize_batch_cleanup, read_back, expected_baidu_batch_path,
}
use baidu_drive_mover.State.Safety.{
  IsReleased, GrantIsSafe, GrantIsSafe-evolve, IsSafe, Quiet-IsSafe,
}
use baidu_drive_mover.State.Safety.Gate.{IsCleared, batch-IsCleared}

-- The reads change nothing, and hand on files that have passed the checks.
check_batch_facts :
    (task batch expected : Str) (db mid : Db) (files : List File)
    → check_batch task batch expected db ≡ ok (files, mid)
    → (mid ≡ db)
      × (files ≡ batch_files_of db task batch)
      × (check_cleanup_files task (batch_files_of db task batch) ≡ ok tt)
unfolding check_batch
check_batch_facts task batch expected db mid files h =
    let h1 = get_then _ h in
    let (row, _, h2) = expect_then _ _ _ h1 in
    let (_, h3) = guard_then _ _ _ h2 in
    let (_, checked, h4) = lift_then _ _ h3 in
    let (_, h5) = guard_then _ _ _ h4 in
    let (o, _, h6) = expect_then _ _ _ h5 in
    let (_, h7) = guard_then _ _ _ h6 in let (same, kept) = return_lem _ h7 in (kept, same, checked)

-- The backfill touches no file and no row of batch_files.
abbrev Keeps : Db → Db → Type 0
Keeps db after = (after.files ≡ db.files) × (after.batch_files ≡ db.batch_files)

register_object-Keeps :
    (task scope id object_path now : Str) (db after : Db) (a : Unit {0})
    → register_object task scope id object_path now db ≡ ok (a, after)
    → Keeps db after
unfolding register_object
register_object-Keeps task scope id object_path now db after a h = ground arith

backfill_local_object-Keeps :
    (task now : Str) (f : File) (db after : Db) (o : CleanupObject)
    → backfill_local_object task now f db ≡ ok (o, after)
    → Keeps db after
unfolding backfill_local_object
backfill_local_object-Keeps task now f db after o h =
    let (_, mid, registered, rest) = >>=-eq-ok (register_object task _ _ _ now) _ db h in
    let (a, b) = register_object-Keeps task _ _ _ now db mid _ registered in
    let (_, _, h2) = expect_then _ _ _ (get_then _ rest) in
    let (_, h3) = guard_then _ _ _ h2 in
    let (_, kept) = return_lem _ h3 in
    (ap (λ (d : Db). d.files) kept ∙ a, ap (λ (d : Db). d.batch_files) kept ∙ b)

backfill_local_objects-Keeps :
    (task now : Str) (fs : List File) (db after : Db) (os : List CleanupObject)
    → backfill_local_objects task now fs db ≡ ok (os, after)
    → Keeps db after
unfolding backfill_local_objects
backfill_local_objects-Keeps task now [] db after os h =
    let (_, kept) = return_lem _ h in
    (ap (λ (d : Db). d.files) kept, ap (λ (d : Db). d.batch_files) kept)
backfill_local_objects-Keeps task now (f ∷ fs) db after os h =
    let (o, mid, first, rest) = >>=-eq-ok (backfill_local_object task now f) _ db h in
    let (os', last, later, ends) = >>=-eq-ok (backfill_local_objects task now fs) _ mid rest in
    let (a, b) = backfill_local_object-Keeps task now f db mid o first in
    let (c, d) = backfill_local_objects-Keeps task now fs mid last os' later in
    let (_, kept) = return_lem _ ends in
    (ap (λ (d : Db). d.files) kept ∙ c ∙ a, ap (λ (d : Db). d.batch_files) kept ∙ d ∙ b)

-- Marking a batch whose files are cleared.
abbrev mark_pending : Str → File → File
mark_pending now f = record f {
  status = FileStatus.cleanup_pending;
  last_error = [];
  updated_at = now;
}

abbrev takes : Db → Str → Str → File → Bool
takes db task batch f = is_file_of_batch db task batch f && is_drive_verified f.status

abbrev marked_files : Db → Str → Str → Str → List File
marked_files db task batch now = update_where (takes db task batch) (mark_pending now) db.files

abbrev marked_objects : Db → Str → Str → List CleanupObject
marked_objects db task batch =
    update_where (is_local_object_of_batch db task batch) allow_cleanup
      (update_where (is_object task scope_baidu_batch_dir batch) allow_cleanup db.owned_objects)

pending-Evolves :
    (db : Db) (task batch now : Str) (f : File)
    → takes db task batch f ≡ true
    → Evolves f (mark_pending now f)
pending-Evolves db task batch now f h = ground arith

pending-IsReleased :
    (now : Str) (f : File) (b : Bool)
    → IsCleared f
    → (b ≡ false → is_drive_verified f.status ≡ false)
    → IsReleased (if b then mark_pending now f else f)
pending-IsReleased now f true c h = ground arith
pending-IsReleased now f false c h = ground arith

link_task :
    (task batch : Str) (l : BatchFile) → is_batch_file task batch l ≡ true → task ≡ l.task_id
unfolding is_batch_file
link_task task batch l h = str_eq→eq task l.task_id (&&-both _ _ h).0

scopes_differ : scope_baidu_batch_dir ≡ scope_local_cache_file → ⊥
unfolding str_eq
scopes_differ h =
    false≢true
      (subst (λ s. str_eq scope_baidu_batch_dir s ≡ true) h (str_eq_refl scope_baidu_batch_dir))

-- A row of the batch has a file, by the foreign key.
link_file :
    (files : List File) (task batch id : Str) (ls : List BatchFile)
    → All (HasFile files) ls
    → exists_where (λ l. is_batch_file task batch l && str_eq l.file_id id) ls ≡ true
    → (f : File) × (first_where (is_file task id) files ≡ some f)
unfolding exists_where
link_file files task batch id [] linked h = cc
link_file files task batch id (l ∷ ls) linked h =
    elim (Bool-cases (is_batch_file task batch l && str_eq l.file_id id)) [
      | inr other ↦ link_file files task batch id ls linked.1 (rw other at h)
      | inl hit ↦
          let (mine, named) = &&-both _ _ hit in
          let (f, found) = linked.0 in
          let t = link_task task batch l mine in
          let i = str_eq→eq l.file_id id named in
          (f, subst₂ (λ t i. first_where (is_file t i) files ≡ some f) (sym t) i found)
    ]

batch_file_found :
    (db : Db) (task batch id : Str)
    → IsLinked db
    → in_batch db task batch id ≡ true
    → (f : File) × (first_where (is_file task id) db.files ≡ some f)
unfolding in_batch
batch_file_found db task batch id linked h =
    link_file db.files task batch id db.batch_files linked h

batch_dir_not_local :
    (task batch : Str) (o : CleanupObject)
    → is_object task scope_baidu_batch_dir batch o ≡ true
    → o.scope ≡ scope_local_cache_file
    → ⊥
unfolding is_object
batch_dir_not_local task batch o h e =
    let (_, rest) = &&-both _ _ h in
    let (scope, _) = &&-both _ _ rest in
    scopes_differ (str_eq→eq scope_baidu_batch_dir o.scope scope ∙ e)

-- A file that the batch names by its key is a file of the batch.
pub found_in_batch :
    (db : Db) (task batch id : Str) (f : File)
    → in_batch db task batch id ≡ true
    → first_where (is_file task id) db.files ≡ some f
    → is_file_of_batch db task batch f ≡ true
unfolding is_file_of_batch
found_in_batch db task batch id f mine found =
    let (a, b) = is_file→keys task id f (first_where_sound (is_file task id) db.files found) in
    subst (λ i. (str_eq task f.task_id && in_batch db task batch i) ≡ true) b
      (subst (λ t. (str_eq task t && in_batch db task batch id) ≡ true) a
        (rw (str_eq_refl task) mine))

module _ (db : Db) (task batch now : Str)
    (cleared : (id : Str) (f : File)
      → in_batch db task batch id ≡ true
      → first_where (is_file task id) db.files ≡ some f
      → IsCleared f)
    (V : Str → Str → Type 0)
    (opened : (id : Str) (f : File)
      → in_batch db task batch id ≡ true
      → first_where (is_file task id) db.files ≡ some f
      → V task id) where
  -- A file that the batch names is released by the update.
  marked-IsReleased :
      (id : Str) (f : File)
      → in_batch db task batch id ≡ true
      → first_where (is_file task id) db.files ≡ some f
      → (g : File) × (first_where (is_file task id) (marked_files db task batch now) ≡ some g)
        × IsReleased g
  marked-IsReleased id f mine found = (
    if takes db task batch f then mark_pending now f else f,
    find-update_same task id _ (mark_pending now) db.files (λ x. (refl, refl)) found,
    pending-IsReleased now f (takes db task batch f) (cleared id f mine found)
        (λ kept. rw (found_in_batch db task batch id f mine found) at kept),
  )

  -- A local object of the batch belongs to a file that was checked.
  local-GrantIsSafe :
      IsLinked db
      → (o : CleanupObject) → is_local_object_of_batch db task batch o ≡ true
      → V o.task_id o.object_id
        × ((f : File) × (first_where
                (is_file o.task_id o.object_id)
                (marked_files db task batch now)
              ≡ some f)
            × IsReleased f)
  unfolding is_local_object_of_batch
  local-GrantIsSafe linked o h =
      let (a, rest) = &&-both _ _ h in
      let (_, mine) = &&-both _ _ rest in
      let (f, found) = batch_file_found db task batch o.object_id linked mine in
      subst
        (λ t.
          V t o.object_id
          × ((f : File) × (first_where (is_file t o.object_id) (marked_files db task batch now)
                ≡ some f)
              × IsReleased f))
        (str_eq→eq task o.task_id a)
        (opened o.object_id f mine found, marked-IsReleased o.object_id f mine found)

  marked-IsSafe :
      IsSafe V db
      → IsSafe V (record db {
        files = marked_files db task batch now;
        owned_objects = marked_objects db task batch;
      })
  marked-IsSafe s =
      let after = record db {
        files = marked_files db task batch now;
        owned_objects = marked_objects db task batch;
      } in
      let evolves =
        RowsEvolve-update (takes db task batch) (mark_pending now) db.files
          (pending-Evolves db task batch now) in
      record {
        linked = IsLinked-evolve db.files _ db.batch_files evolves s.linked;
        granted =
            grants-allow (GrantIsSafe V after) _ _ _ (λ o mine _. local-GrantIsSafe s.linked o mine)
              (grants-allow (GrantIsSafe V after) _ _ db.owned_objects
                (λ o mine local. absurd (batch_dir_not_local task batch o mine local))
                (All-map (GrantIsSafe V db) (GrantIsSafe V after) (grants db.owned_objects)
                  (GrantIsSafe-evolve V V db after (λ _ _ v. v) evolves) s.granted));
      }

-- What the call does: the files evolve, and the invariant is kept for a `V` that holds of the
-- files of the batch that are cleared before the call.
pub record Authorized (task batch : Str) (db after : Db) : Type 1 where
  pub evolves : RowsEvolve db.files after.files
  pub safe :
      (V : Str → Str → Type 0)
      → ((id : Str) (f : File)
          → in_batch db task batch id ≡ true
          → first_where (is_file task id) db.files ≡ some f
          → IsCleared f
          → V task id)
      → IsSafe V db
      → IsSafe V after

Authorized-refl : (task batch : Str) (db : Db) → Authorized task batch db db
Authorized-refl task batch db = record { evolves = RowsEvolve-refl db.files; safe = λ V _ s. s }

in_batch_same :
    (db mid : Db) (task batch id : Str)
    → mid.batch_files ≡ db.batch_files
    → in_batch mid task batch id ≡ in_batch db task batch id
unfolding in_batch
in_batch_same db mid task batch id e =
    ap (exists_where (λ l. is_batch_file task batch l && str_eq l.file_id id)) e

mark_pending_and_allow_facts :
    (task batch now : Str) (db after : Db) (a : Unit {0})
    → mark_pending_and_allow task batch now db ≡ ok (a, after)
    → record db {
      files = marked_files db task batch now;
      owned_objects = marked_objects db task batch;
    }
      ≡ after
unfolding mark_pending_and_allow transactions update_files update_objects
mark_pending_and_allow_facts task batch now db after a h = cc

authorize_tx-Authorized :
    (task batch expected now : Str) (db after : Db) (a : Unit {0})
    → authorize_tx task batch expected now db ≡ ok (a, after)
    → Authorized task batch db after
unfolding authorize_tx
authorize_tx-Authorized task batch expected now db after a h =
    let (files, db', read, h1) = >>=-eq-ok (check_batch task batch expected) _ db h in
    let (same, listed, checked) = check_batch_facts task batch expected db db' files read in
    let (os, mid, filled, h2) = >>=-eq-ok (backfill_local_objects task now files) _ db' h1 in
    let (f, l) = backfill_local_objects-Keeps task now files db' mid os filled in
    let q = (backfill_local_objects-Quiet task now files db').holds os mid filled in
    let e = mark_pending_and_allow_facts task batch now mid after a h2 in
    let f' : mid.files ≡ db.files = f ∙ ap (λ (d : Db). d.files) same in
    let l' : mid.batch_files ≡ db.batch_files = l ∙ ap (λ (d : Db). d.batch_files) same in
    subst (Authorized task batch db) e (record {
      evolves =
          subst (λ files. RowsEvolve files (marked_files mid task batch now)) f'
            (RowsEvolve-update (takes mid task batch) (mark_pending now) mid.files
              (pending-Evolves mid task batch now));
      safe = λ V opened s.
          let mine_before = λ (id : Str) (mine : in_batch mid task batch id ≡ true).
            sym (in_batch_same db mid task batch id l') ∙ mine in
          let found_before =
            λ (id : Str) (g : File) (found : first_where (is_file task id) mid.files ≡ some g).
              subst (λ files. first_where (is_file task id) files ≡ some g) f' found in
          let cleared =
            λ (id : Str) (g : File) (mine : in_batch mid task batch id ≡ true)
                (found : first_where (is_file task id) mid.files ≡ some g).
              batch-IsCleared db task batch id g checked (mine_before id mine)
                (found_before id g found) in
          marked-IsSafe mid task batch now cleared V
            (λ id g mine found.
              opened id g (mine_before id mine) (found_before id g found) (cleared id g mine found))
            (Quiet-IsSafe q V (subst (IsSafe V) (sym same) s));
    })

read_back_same :
    (task batch : Str) (r : Db × Result StateError (Unit {0})) → (read_back task batch r).0 ≡ r.0
unfolding read_back
read_back_same task batch (after, ok _) = refl
read_back_same task batch (after, err e) = refl

pub authorize_batch_cleanup-Authorized :
    (task batch now : Str) (db : Db)
    → Authorized task batch db (authorize_batch_cleanup task batch now db).0
unfolding authorize_batch_cleanup in_tx
authorize_batch_cleanup-Authorized task batch now db =
    elim (Result-cases (expected_baidu_batch_path task batch)) [
      | inl (e, unsafe) ↦ rw (unsafe, authorize_batch_cleanup) (Authorized-refl task batch db)
      | inr (expected, safe) ↦
          rw
            (
              safe,
              authorize_batch_cleanup,
              read_back_same task batch (in_tx (authorize_tx task batch expected now) db),
            )
            (elim (Result-cases (authorize_tx task batch expected now db)) [
              | inl (e, failed) ↦ rw (failed, in_tx) (Authorized-refl task batch db)
              | inr ((a, after), ran) ↦
                  rw (ran, in_tx) (authorize_tx-Authorized task batch expected now db after a ran)
            ])
    ]
