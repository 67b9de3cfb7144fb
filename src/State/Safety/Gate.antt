-- ===== src/State/Safety/Gate.antt =====
-- What AuthorizeBatchCleanup has checked of a file of the batch when it marks the batch.
use baidu_drive_mover.Base.{
  ◌≡◌, refl, subst, true, false, Bool-cases, inl, inr, ◌&&◌, List, [], ◌∷◌, some, ok, Result-cases,
  arith, All, All-append_split, order_by-All, All-select_first, concat_map, select, exists_where,
  first_where, is_empty,
}
use baidu_drive_mover.Text.{Str, str_eq, str_eq→eq, trim_space, trim_space-nil}
use baidu_drive_mover.State.Model.{File}
use baidu_drive_mover.State.Db.{
  Db, BatchFile, is_file, is_batch_file, in_batch, batch_files_of, ordinal_le,
}
use baidu_drive_mover.State.Cleanup.{is_cleanup_eligible, check_cleanup_file, check_cleanup_files}

-- The file is verified or pending, and has a Drive ID.
pub record IsCleared (f : File) : Type 0 where
  pub eligible : is_cleanup_eligible f.status ≡ true
  pub on_drive : is_empty f.drive_id ≡ false

is_empty-trim : (s : Str) → is_empty (trim_space s) ≡ false → is_empty s ≡ false
is_empty-trim [] h = cc (trim_space-nil)
is_empty-trim (c ∷ s) h = refl

check_cleanup_file-IsCleared :
    (task : Str) (f : File) → check_cleanup_file task f ≡ ok tt → IsCleared f
unfolding check_cleanup_file
check_cleanup_file-IsCleared task f h = ground (arith, is_empty-trim f.drive_id)

pub check_cleanup_files-IsCleared :
    (task : Str) (fs : List File) → check_cleanup_files task fs ≡ ok tt → All IsCleared fs
unfolding check_cleanup_files
check_cleanup_files-IsCleared task [] h = tt
check_cleanup_files-IsCleared task (f ∷ fs) h = elim (Result-cases (check_cleanup_file task f)) [
  | inl (e, failed) ↦ cc (rw (failed, check_cleanup_files) at h)
  | inr (_, passed) ↦ (
    check_cleanup_file-IsCleared task f passed,
    check_cleanup_files-IsCleared task fs (rw (passed, check_cleanup_files) at h),
  )
]

All-concat_map :
    (P : File → Type 0) (g : BatchFile → List File) (ls : List BatchFile)
    → All P (concat_map g ls)
    → All (λ l. All P (g l)) ls
unfolding concat_map
All-concat_map P g [] h = tt
All-concat_map P g (l ∷ ls) h =
    let (a, b) = All-append_split P (g l) (concat_map g ls) h in (a, All-concat_map P g ls b)

-- A row of the batch that names the file leads to the file that the key finds.
link_to_file :
    (P : File → Type 0) (task batch id : Str) (files : List File) (ls : List BatchFile) {f : File}
    → All
        (λ l. All P (select (is_file task l.file_id) files))
        (select (is_batch_file task batch) ls)
    → exists_where (λ l. is_batch_file task batch l && str_eq l.file_id id) ls ≡ true
    → first_where (is_file task id) files ≡ some f
    → P f
unfolding select exists_where
link_to_file P task batch id files [] all h found = cc
link_to_file P task batch id files (l ∷ ls) {f} all h found =
    elim (Bool-cases (is_batch_file task batch l)) [
      | inr other ↦ link_to_file P task batch id files ls (rw other at all) (rw other at h) found
      | inl mine ↦
          let all' = rw mine at all in
          let h' = rw mine at h in
          elim (Bool-cases (str_eq l.file_id id)) [
            | inl named ↦
                let e = str_eq→eq l.file_id id named in
                All-select_first P (is_file task id) files
                  (subst (λ i. All P (select (is_file task i) files)) e all'.0) found
            | inr other ↦ link_to_file P task batch id files ls all'.1 (rw other at h') found
          ]
    ]

-- What holds of the files of the batch holds of each file that it names, as the key finds it.
pub batch_files-All :
    (P : File → Type 0) (db : Db) (task batch id : Str) (f : File)
    → All P (batch_files_of db task batch)
    → in_batch db task batch id ≡ true
    → first_where (is_file task id) db.files ≡ some f
    → P f
unfolding batch_files_of in_batch
batch_files-All P db task batch id f all mine found =
    link_to_file P task batch id db.files db.batch_files
      (order_by-All ordinal_le _ (select (is_batch_file task batch) db.batch_files)
        (All-concat_map P _ _ all))
      mine found

-- Every file that the batch names has passed the checks.
pub batch-IsCleared :
    (db : Db) (task batch id : Str) (f : File)
    → check_cleanup_files task (batch_files_of db task batch) ≡ ok tt
    → in_batch db task batch id ≡ true
    → first_where (is_file task id) db.files ≡ some f
    → IsCleared f
batch-IsCleared db task batch id f checked =
    batch_files-All IsCleared db task batch id f
      (check_cleanup_files-IsCleared task (batch_files_of db task batch) checked)
