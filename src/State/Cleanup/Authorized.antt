-- ===== src/State/Cleanup/Authorized.antt =====
-- What the caller of AuthorizeBatchCleanup and GetAuthorizedCleanupBatch (internal/state) may rely on
-- before it deletes anything.
use baidu_drive_mover.Base.{
  err≢ok, ok-eq, sym, ap, ◌∙◌, ◌≡◌, refl, true, false, ◌&&◌, &&-both, List, [], ◌∷◌, none, some,
  Result, ok, err, Result-cases, Option-cases, Bool-cases, inl, inr, arith, if◌then◌else◌, All,
  is_empty, subst,
}
use baidu_drive_mover.Text.{Str, str_eq, str_eq→eq, trim_space}
use baidu_drive_mover.State.Model.{File, FileStatus, StateError}
use baidu_drive_mover.State.Db.{
  Db, BatchRow, CleanupObject, find_object, find_batch, batch_files_of, scope_local_cache_file,
  scope_baidu_batch_dir, is_object,
}
use baidu_drive_mover.State.Rows.{first_where_sound}
use baidu_drive_mover.State.Invert.{get_then, guard_then, expect_then, lift_then, in_tx-cases}
use baidu_drive_mover.State.Quiet.{>>=-eq-ok}
use baidu_drive_mover.State.Safety.Gate.{IsCleared, check_cleanup_files-IsCleared}
use baidu_drive_mover.State.Download.{cache_path_of}
use baidu_drive_mover.State.Cleanup.{
  CleanupBatch, expected_baidu_batch_path, is_cleanup_pending, authorized_local_object,
  authorized_local_objects, get_authorized_cleanup_batch, read_back, authorize_batch_cleanup,
  authorize_tx, check_batch, is_object,
}

-- A file that waits for its cleanup: it has a Drive ID, and the row of its cache file allows the
-- deletion of exactly the path that the file must have.
pub record IsDeletable (db : Db) (task : Str) (f : File) : Type 0 where
  pub pending : f.status ≡ FileStatus.cleanup_pending
  pub on_drive : is_empty (trim_space f.drive_id) ≡ false
  pub object : CleanupObject
  pub found : find_object task scope_local_cache_file f.file_id db ≡ some object
  pub allowed : object.cleanup_allowed ≡ true
  pub exact : object.object_path ≡ cache_path_of task f.file_id

-- A cache row that names the cache path of its own file.
abbrev pub HasOwnPath : Str → CleanupObject → Type 0
HasOwnPath task o = o.object_path ≡ cache_path_of task o.object_id

-- The batch that is handed out: its files, and the row of its Baidu directory.
pub record IsAuthorized (db : Db) (task batch : Str) (b : CleanupBatch) : Type 0 where
  pub same_task : b.task_id ≡ task
  pub same_batch : b.batch_id ≡ batch
  pub listed : b.files ≡ batch_files_of db task batch
  pub own_paths : All (HasOwnPath task) b.local_objects
  pub deletable : All (IsDeletable db task) b.files
  pub baidu_found : find_object task scope_baidu_batch_dir batch db ≡ some b.baidu_object
  pub baidu_allowed : b.baidu_object.cleanup_allowed ≡ true
  pub baidu_exact : expected_baidu_batch_path task batch ≡ ok b.baidu_object.object_path
  pub staging_exact : b.baidu_staging_path ≡ b.baidu_object.object_path

pending_status : (s : FileStatus) → is_cleanup_pending s ≡ true → s ≡ FileStatus.cleanup_pending
pending_status s h = ground arith

authorized_local_object-IsDeletable :
    (db : Db) (task : Str) (f : File) (o : CleanupObject)
    → authorized_local_object db task f ≡ ok o
    → IsDeletable db task f
unfolding authorized_local_object
authorized_local_object-IsDeletable db task f o h =
    elim (Bool-cases (is_cleanup_pending f.status)) [
      | inr other ↦ cc (rw (other, authorized_local_object) at h)
      | inl pending ↦
          let h1 = rw (pending, authorized_local_object) at h in
          elim (Bool-cases (is_empty (trim_space f.drive_id))) [
            | inl missing ↦ cc (rw missing at h1)
            | inr present ↦
                let h2 = rw present at h1 in
                elim (Option-cases (find_object task scope_local_cache_file f.file_id db)) [
                  | inl none_ ↦ cc (rw none_ at h2)
                  | inr (p, found) ↦
                      let h3 = rw found at h2 in
                      elim (Bool-cases (
                        p.cleanup_allowed && str_eq p.object_path (cache_path_of task f.file_id))) [
                          | inr refused ↦ cc (rw refused at h3)
                          | inl granted ↦
                              let (a, b) = &&-both _ _ granted in
                              record {
                                pending = pending_status f.status pending;
                                on_drive = present;
                                object = p;
                                found = found;
                                allowed = a;
                                exact = str_eq→eq p.object_path _ b;
                              }
                        ]
                ]
          ]
    ]

object_id-of_found :
    (db : Db) (task scope id : Str) (o : CleanupObject)
    → find_object task scope id db ≡ some o
    → id ≡ o.object_id
unfolding find_object is_object
object_id-of_found db task scope id o h =
    let found = first_where_sound (is_object task scope id) db.owned_objects h in
    str_eq→eq id o.object_id (&&-both _ _ (&&-both _ _ found).1).1

authorized_local_object-HasOwnPath :
    (db : Db) (task : Str) (f : File) (o : CleanupObject)
    → authorized_local_object db task f ≡ ok o
    → HasOwnPath task o
unfolding authorized_local_object
authorized_local_object-HasOwnPath db task f o h =
    let (found, path) : (find_object task scope_local_cache_file f.file_id db ≡ some o)
        × (o.object_path ≡ cache_path_of task f.file_id) =
      ground (arith, str_eq→eq o.object_path (cache_path_of task f.file_id)) in
    path
    ∙ ap (cache_path_of task) (object_id-of_found db task scope_local_cache_file f.file_id o found)

authorized_local_objects-HasOwnPath :
    (db : Db) (task : Str) (fs : List File) (os : List CleanupObject)
    → authorized_local_objects db task fs ≡ ok os
    → All (HasOwnPath task) os
unfolding authorized_local_objects
authorized_local_objects-HasOwnPath db task [] os h = subst (All (HasOwnPath task)) (ok-eq h) tt
authorized_local_objects-HasOwnPath db task (f ∷ fs) os h =
    elim (Result-cases (authorized_local_object db task f)) [
      | inl (e, refused) ↦ cc (rw (refused, authorized_local_objects) at h)
      | inr (o, granted) ↦
          let h1 = rw (granted, authorized_local_objects) at h in
          elim (Result-cases (authorized_local_objects db task fs)) [
            | inl (e, refused) ↦ cc (rw refused at h1)
            | inr (rest, all) ↦ subst (All (HasOwnPath task)) (ok-eq (rw all at h1)) (
              authorized_local_object-HasOwnPath db task f o granted,
              authorized_local_objects-HasOwnPath db task fs rest all,
            )
          ]
    ]

authorized_local_objects-All :
    (db : Db) (task : Str) (fs : List File) (os : List CleanupObject)
    → authorized_local_objects db task fs ≡ ok os
    → All (IsDeletable db task) fs
unfolding authorized_local_objects
authorized_local_objects-All db task [] os h = tt
authorized_local_objects-All db task (f ∷ fs) os h =
    elim (Result-cases (authorized_local_object db task f)) [
      | inl (e, refused) ↦ cc (rw (refused, authorized_local_objects) at h)
      | inr (o, granted) ↦
          let h1 = rw (granted, authorized_local_objects) at h in
          elim (Result-cases (authorized_local_objects db task fs)) [
            | inl (e, refused) ↦ cc (rw refused at h1)
            | inr (rest, all) ↦ (
              authorized_local_object-IsDeletable db task f o granted,
              authorized_local_objects-All db task fs rest all,
            )
          ]
    ]

-- The end of GetAuthorizedCleanupBatch, once the row of the batch has been checked.
abbrev authorized_rows : Str → Str → Db → Str → BatchRow → Result StateError CleanupBatch
authorized_rows task batch db expected row =
    elim (authorized_local_objects db task (batch_files_of db task batch)) [
      | err e ↦ err e
      | ok locals ↦ elim (find_object task scope_baidu_batch_dir batch db) [
        | none ↦ err StateError.not_found
        | some o ↦
            if o.cleanup_allowed && str_eq o.object_path expected
            then ok (record {
              task_id = task;
              batch_id = batch;
              baidu_staging_path = row.baidu_staging_path;
              files = batch_files_of db task batch;
              local_objects = locals;
              baidu_object = o;
            })
            else err StateError.not_authorized
      ]
    ]

IsAuthorized-of_row :
    (task batch : Str) (db : Db) (b : CleanupBatch) (expected : Str) (row : BatchRow)
    → expected_baidu_batch_path task batch ≡ ok expected
    → row.baidu_staging_path ≡ expected
    → authorized_rows task batch db expected row ≡ ok b
    → IsAuthorized db task batch b
IsAuthorized-of_row task batch db b expected row safe same h =
    elim (Result-cases (authorized_local_objects db task (batch_files_of db task batch))) [
      | inl (e, refused) ↦ cc (rw (refused, authorized_rows) at h)
      | inr (locals, all) ↦
          let h1 = rw (all, authorized_rows) at h in
          elim (Option-cases (find_object task scope_baidu_batch_dir batch db)) [
            | inl missing ↦ cc (rw missing at h1)
            | inr (o, found) ↦
                let h2 = rw found at h1 in
                elim (Bool-cases (o.cleanup_allowed && str_eq o.object_path expected)) [
                  | inr refused ↦ cc (rw refused at h2)
                  | inl granted ↦
                      let (allowed, path) = &&-both _ _ granted in
                      let exact = str_eq→eq o.object_path expected path in
                      subst (IsAuthorized db task batch) (ok-eq (rw granted at h2)) (record {
                        same_task = refl;
                        same_batch = refl;
                        listed = refl;
                        own_paths = authorized_local_objects-HasOwnPath db task _ locals all;
                        deletable = authorized_local_objects-All db task _ locals all;
                        baidu_found = found;
                        baidu_allowed = allowed;
                        baidu_exact = safe ∙ ap (λ p. ok p) (sym exact);
                        staging_exact = same ∙ sym exact;
                      })
                ]
          ]
    ]

get_authorized_cleanup_batch-IsAuthorized :
    (task batch : Str) (db : Db) (b : CleanupBatch)
    → get_authorized_cleanup_batch task batch db ≡ ok b
    → IsAuthorized db task batch b
unfolding get_authorized_cleanup_batch
get_authorized_cleanup_batch-IsAuthorized task batch db b h =
    elim (Result-cases (expected_baidu_batch_path task batch)) [
      | inl (e, unsafe) ↦ cc (rw (unsafe, get_authorized_cleanup_batch) at h)
      | inr (expected, safe) ↦
          let h1 = rw (safe, get_authorized_cleanup_batch) at h in
          elim (Option-cases (find_batch task batch db)) [
            | inl missing ↦ cc (rw missing at h1)
            | inr (row, found) ↦
                let h2 = rw found at h1 in
                elim (Bool-cases (str_eq row.baidu_staging_path expected)) [
                  | inr differs ↦ cc (rw differs at h2)
                  | inl same ↦
                      IsAuthorized-of_row task batch db b expected row safe
                        (str_eq→eq row.baidu_staging_path expected same) (rw same at h2)
                ]
          ]
    ]

check_batch_facts :
    (task batch expected : Str) (db mid : Db) (files : List File)
    → check_batch task batch expected db ≡ ok (files, mid)
    → All IsCleared (batch_files_of db task batch)
      × (is_empty (batch_files_of db task batch) ≡ false)
unfolding check_batch
check_batch_facts task batch expected db mid files h =
    let h1 = get_then _ h in
    let (row, _, h2) = expect_then _ _ _ h1 in
    let (_, h3) = guard_then _ _ _ h2 in
    let (_, checked, h4) = lift_then _ _ h3 in
    let (some_files, _) = guard_then _ _ _ h4 in
    (check_cleanup_files-IsCleared task _ checked, ground arith)

authorize_tx_facts :
    (task batch expected now : Str) (db after : Db) (a : Unit {0})
    → authorize_tx task batch expected now db ≡ ok (a, after)
    → All IsCleared (batch_files_of db task batch)
      × (is_empty (batch_files_of db task batch) ≡ false)
unfolding authorize_tx
authorize_tx_facts task batch expected now db after a h =
    let (files, mid, checked, _) = >>=-eq-ok (check_batch task batch expected) _ db h in
    check_batch_facts task batch expected db mid files checked

read_back_lem :
    (task batch : Str) (after : Db) (b : CleanupBatch) (a : Unit {0})
    (r : Db × Result StateError (Unit {0}))
    → r ≡ (after, ok a)
    → (read_back task batch r).1 ≡ ok b
    → (get_authorized_cleanup_batch task batch after ≡ ok b) × ((read_back task batch r).0 ≡ after)
unfolding read_back
read_back_lem task batch after b a r e =
    subst
      (λ r.
        (read_back task batch r).1 ≡ ok b
        → (get_authorized_cleanup_batch task batch after ≡ ok b)
          × ((read_back task batch r).0 ≡ after))
      (sym e) (λ h. (h, refl))

-- If AuthorizeBatchCleanup succeeds, then before the call the batch had files, each of them
-- verified on Drive or already pending, with a Drive ID; and the batch that it returns lists the
-- files of the batch after the call, each pending with a Drive ID and with a cache row that allows
-- the deletion of its own cache path, and a directory row that allows the deletion of the batch's
-- own staging path; and every cache row that it hands out names the cache path of its own file.
pub authorize_batch_cleanup_lem :
    (task batch now : Str) (db : Db) (b : CleanupBatch)
    → (authorize_batch_cleanup task batch now db).1 ≡ ok b
    → All IsCleared (batch_files_of db task batch)
      × (is_empty (batch_files_of db task batch) ≡ false)
      × IsAuthorized (authorize_batch_cleanup task batch now db).0 task batch b
unfolding authorize_batch_cleanup read_back
authorize_batch_cleanup_lem task batch now db b h =
    elim (Result-cases (expected_baidu_batch_path task batch)) [
      | inl (e, unsafe) ↦ absurd (err≢ok (rw (unsafe, authorize_batch_cleanup) at h))
      | inr (expected, safe) ↦
          let h1 = rw (safe, authorize_batch_cleanup) at h in
          elim (in_tx-cases (authorize_tx task batch expected now) db) [
            | inl (e, failed) ↦ absurd (err≢ok (rw failed at h1))
            | inr (a, after, ran, done_) ↦
                let (facts, some_files) =
                  authorize_tx_facts task batch expected now db after a ran in
                let (read, kept) = read_back_lem task batch after b a _ done_ h1 in
                (
                  facts,
                  some_files,
                  rw (safe, authorize_batch_cleanup)
                      (subst (λ d. IsAuthorized d task batch b) (sym kept)
                        (get_authorized_cleanup_batch-IsAuthorized task batch after b read)),
                )
          ]
    ]
