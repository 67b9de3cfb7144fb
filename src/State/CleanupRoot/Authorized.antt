-- ===== src/State/CleanupRoot/Authorized.antt =====
-- What the caller of AuthorizeTaskRootCleanup (internal/state/cleanup_root.go) may rely on before it
-- deletes the task's root.
use baidu_drive_mover.Base.{
  ◌≡◌, sym, ap, ◌∙◌, true, ok, Result-cases, err≢ok, Bool-cases, inl, inr, is_empty, ==→eq, arith,
}
use baidu_drive_mover.Text.{Str, str_eq→eq}
use baidu_drive_mover.State.Db.{Db, CleanupObject, in_tx, ◌>>=◌, return, update_objects}
use baidu_drive_mover.State.Invert.{get_then, guard_then, expect_then, return_lem, in_tx-cases}
use baidu_drive_mover.State.Quiet.{>>=-eq-ok}
use baidu_drive_mover.State.CleanupRoot.{
  expected_baidu_task_root_path, unfinished_files, task_root_batch_cleanup_counts, update_task_root,
  allow_task_root, authorize_task_root_tx, read_back_root, authorize_task_root_cleanup,
}
use baidu_drive_mover.State.Safety.Root.{read_back_root_same}

allow_task_root_files :
    (task expected : Str) (o : CleanupObject) (db after : Db) (a : Unit {0})
    → allow_task_root task expected o db ≡ ok (a, after)
    → after.files ≡ db.files
unfolding allow_task_root update_task_root ◌>>=◌ return update_objects
allow_task_root_files task expected o db after a h = elim (Bool-cases (is_empty o.cleaned_at)) [
  | inl fresh ↦ cc (rw fresh at h)
  | inr cleaned ↦ cc (rw cleaned at h)
]

-- What the transaction has checked, and that it leaves the files alone.
authorize_task_root_tx_facts :
    (task expected : Str) (db after : Db) (o : CleanupObject)
    → authorize_task_root_tx task expected db ≡ ok (o, after)
    → (unfinished_files task after ≡ 0)
      × ((task_root_batch_cleanup_counts task db).0 ≡ (task_root_batch_cleanup_counts task db).1)
unfolding authorize_task_root_tx unfinished_files
authorize_task_root_tx_facts task expected db after o h =
    let (none_left, h1) = guard_then _ _ _ (get_then _ h) in
    let (all_cleaned, h2) = guard_then _ _ _ h1 in
    let (p, _, h3) = expect_then _ _ _ h2 in
    let (_, h4) = guard_then _ _ _ h3 in
    let (a, mid, allowed, h5) = >>=-eq-ok (allow_task_root task expected p) _ db h4 in
    let (_, kept) = return_lem _ h5 in
    let files : after.files ≡ db.files =
      ap (λ (d : Db). d.files) kept ∙ allow_task_root_files task expected p db mid a allowed in
    (rw files (==→eq _ 0 none_left), ==→eq _ _ all_cleaned)

-- The row that is read back.
read_back_root_facts :
    (task expected : Str) (after : Db) (p o : CleanupObject)
    → (read_back_root task expected (after, ok p)).1 ≡ ok o
    → is_empty o.cleaned_at ≡ true
    → (o.cleanup_allowed ≡ true) × (o.object_path ≡ expected)
unfolding read_back_root
read_back_root_facts task expected after p o h fresh =
    ground (arith, str_eq→eq o.object_path expected)

-- If AuthorizeTaskRootCleanup hands out a row that is not cleaned yet, then the row allows the
-- deletion of exactly the task's own root; after the call no file of the task is unfinished; and
-- before it the task had as many cleaned batch directories as batches.
pub authorize_task_root_cleanup_lem :
    (task : Str) (db : Db) (o : CleanupObject)
    → (authorize_task_root_cleanup task db).1 ≡ ok o
    → is_empty o.cleaned_at ≡ true
    → (o.cleanup_allowed ≡ true)
      × (expected_baidu_task_root_path task ≡ ok o.object_path)
      × (unfinished_files task (authorize_task_root_cleanup task db).0 ≡ 0)
      × ((task_root_batch_cleanup_counts task db).0 ≡ (task_root_batch_cleanup_counts task db).1)
unfolding authorize_task_root_cleanup read_back_root
authorize_task_root_cleanup_lem task db o h fresh =
    elim (Result-cases (expected_baidu_task_root_path task)) [
      | inl (e, unsafe) ↦ absurd (err≢ok (rw (unsafe, authorize_task_root_cleanup) at h))
      | inr (expected, safe) ↦ elim (in_tx-cases (authorize_task_root_tx task expected) db) [
        | inl (e, failed) ↦
            absurd (err≢ok (rw (safe, authorize_task_root_cleanup, failed, read_back_root) at h))
        | inr (p, after, ran, committed) ↦
            let h1 = rw (safe, authorize_task_root_cleanup, committed) at h in
            let (allowed, exact) = read_back_root_facts task expected after p o h1 fresh in
            let (finished, cleaned) = authorize_task_root_tx_facts task expected db after p ran in
            (
              allowed,
              safe ∙ ap (λ x. ok x) (sym exact),
              rw
                  (
                    safe,
                    authorize_task_root_cleanup,
                    read_back_root_same task expected
                        (in_tx (authorize_task_root_tx task expected) db),
                    committed,
                  )
                  finished,
              cleaned,
            )
      ]
    ]
