-- ===== src/Drive/Fewer.antt =====
-- A turn of Uploader.Run (internal/drive/upload.go) that goes on leaves one file less to be uploaded
-- or verified.
use baidu_drive_mover.Base.{
  ◌≡◌, sym, subst, ◌∙◌, ℕ, suc, Bool, true, List, [], ◌∷◌, Option, none, some, ok, All, arith,
  All-take-drop, All-order_by, select-All, ◌&&◌, ok-eq,
}
use baidu_drive_mover.Base.Effects.{
  After-any, Triple, bind, weaken, return-Triple, raise-Triple, require-Triple, handle-Triple,
}
use baidu_drive_mover.Text.{Str, str_eq, str_eq→eq}
use baidu_drive_mover.World.{At, World, Context, query-Triple, check_context-Keeps}
use baidu_drive_mover.World.Ran.{StoreRan, store_call-Ran, idle_db, forget}
use baidu_drive_mover.State.Model.{File}
use baidu_drive_mover.State.Db.{Db}
use baidu_drive_mover.State.Download.{or_default, logical_le}
use baidu_drive_mover.State.Drive.{
  record_drive_uploaded, mark_drive_verified, drive_upload_candidates, is_drive_work,
}
use baidu_drive_mover.State.Drive.Left.{left_of, verified-left, start_drive_upload-left}
use baidu_drive_mover.Drive.Logical.{Reason, RemoteItem}
use baidu_drive_mover.Drive.Checks
use baidu_drive_mover.Drive.Checks.{Uploader, Problem, UploadSummary}
use baidu_drive_mover.Drive.Upload
use baidu_drive_mover.Drive.Run
use baidu_drive_mover.Drive.Guarded.{
  IsReader, IsGuarded, lift-Kept, verify_local_cache-Kept, permanently-Kept, list-Kept,
}
use baidu_drive_mover.Drive.Copies.{upload_one-Ends}

candidates-Of :
    (task : Str) (limit : ℕ) (db : Db)
    → All (λ f. f.task_id ≡ task) (drive_upload_candidates task limit db)
unfolding drive_upload_candidates
candidates-Of task limit db =
    (All-take-drop _ (or_default 100 limit) _ (
      All-order_by logical_le (λ f. f.task_id ≡ task) _
        (select-All (λ f. f.task_id ≡ task) (λ f. str_eq task f.task_id && is_drive_work f.status)
          db.files (λ f h. sym (str_eq→eq task f.task_id (ground arith)))))).0

module _ {W E : Type 0} (u : Uploader W E) where
  -- What is known of the database alone.
  abbrev pub DbOnly : (Db → Type 0) → Db → W → Type 0
  DbOnly R db _ = R db

  reader : (R : Db → Type 0) → IsReader u (DbOnly R)
  reader R = record {
    idle = idle_db u.outside R;
    resolved = λ _ _ _ p. p;
    opened = λ _ _ _ p. p;
    measured = λ _ _ _ p. p;
    loaded = λ _ _ _ p. p;
    closed = λ _ _ _ p. p;
    delayed = λ _ _ _ p. p;
    listed = λ _ _ _ _ p. p;
  }

  module _ (task : Str) (n : ℕ) where
    -- The number of files that are left.
    abbrev pub Left : Db → Type 0
    Left db = left_of task db ≡ n

    guarded : (root : Str) (f : File) → IsGuarded u root f (DbOnly Left) (DbOnly Left)
    guarded root f = record {
      reader = reader Left;
      idle_clear = idle_db u.outside Left;
      started = λ now db w p. start_drive_upload-left task f.task_id f.file_id now db ∙ p;
      clear_kept = λ _ _ p. p;
      cleared = λ _ _ _ _ _ p _ _ _ _. p;
      copied = λ _ _ _ _ p _ _ _. p;
    }

    abbrev pub Fewer : World W → Type 0
    Fewer s = suc (left_of task s.db) ≡ n

    module _ (root : Str) (f : File) (mine : f.task_id ≡ task) where
      -- Behind the record of the object.
      abbrev Uploaded : Str → Db → Type 0
      Uploaded id = StoreRan Left (record_drive_uploaded f.task_id f.file_id id) (ok tt)

      fewer :
          (id : Str) (after : Db)
          → StoreRan (Uploaded id) (mark_drive_verified f.task_id f.file_id id) (ok tt) after
          → suc (left_of task after) ≡ n
      fewer id after (later, mid, (now, db, left, recorded, same), marked, same') =
          let mark = λ (d : Db). mark_drive_verified f.task_id f.file_id id later d in
          let step =
            verified-left f.task_id f.file_id id now later db recorded
              (subst (λ d. (mark d).1 ≡ ok tt) (sym same) marked) in
          let at_mid =
            subst (λ d. suc (left_of f.task_id (mark d).0) ≡ left_of f.task_id db) same step in
          let at_after =
            subst (λ d. suc (left_of f.task_id d) ≡ left_of f.task_id db) same' at_mid in
          subst (λ t. suc (left_of t after) ≡ left_of t db) mine at_after ∙ left

      verify_persisted_remote-Fewer :
          (md5 id : Str)
          → Triple
              (λ s. Uploaded id s.db)
              (Upload.verify_persisted_remote u root f md5 id)
              (λ _. Fewer)
              (λ _ _. Unit {0})
      unfolding Upload.verify_persisted_remote
      verify_persisted_remote-Fewer md5 id =
          let c = reader (Uploaded id) in
          bind (forget (permanently-Kept c _ (verify_local_cache-Kept c f))) λ current.
            bind (require-Triple _ _ (λ s p _. p) (λ s p _. tt)) λ _.
              bind (forget (list-Kept c root f)) λ matches.
                bind
                  (forget (
                    lift-Kept c
                      (Checks.of_reason (Checks.only_item matches Reason.not_exactly_one))))
                  λ item. bind (require-Triple _ _ (λ s p _. p) (λ s p _. tt)) λ _.
                    bind
                      (forget (
                        lift-Kept c
                          (Checks.of_reason (Checks.verify_remote_file item f.size current.1))))
                      λ _.
                        bind
                          (store_call-Ran u.outside (Uploaded id) Context.caller
                            (mark_drive_verified f.task_id f.file_id id))
                          λ _. return-Triple true (λ s p. fewer id s.db p)

      record_and_verify-Fewer :
          (md5 : Str) (item : RemoteItem)
          → Triple
              (At (DbOnly Left))
              (Upload.record_and_verify u root f md5 item)
              (λ _. Fewer)
              (λ _ _. Unit {0})
      unfolding Upload.record_and_verify
      record_and_verify-Fewer md5 item =
          bind
            (store_call-Ran u.outside Left Context.caller
              (record_drive_uploaded f.task_id f.file_id item.id))
            λ _. verify_persisted_remote-Fewer md5 item.id

      upload_one-Fewer :
          Triple (At (DbOnly Left)) (Upload.upload_one u root f) (λ _. Fewer) (λ _ _. Unit {0})
      upload_one-Fewer =
          upload_one-Ends (guarded root f) Fewer (λ _. Unit {0}) (λ s p. tt)
            λ md5 item. record_and_verify-Fewer md5 item

      upload_or_record-Fewer :
          Triple (At (DbOnly Left)) (Run.upload_or_record u root f) (λ _. Fewer) (λ _ _. Unit {0})
      unfolding Run.upload_or_record Run.record_failed_upload
      upload_or_record-Fewer =
          handle-Triple upload_one-Fewer (λ b. return-Triple b (λ s p. p))
            λ e. bind {Q = λ _ _. Unit {0}} (λ s p. After-any _) λ _. raise-Triple e (λ s p. tt)

    -- What a turn that goes on leaves.
    abbrev pub Shrinks : Option (File × Bool) → World W → Type 0
    Shrinks none s = Unit {0}
    Shrinks (some _) s = Fewer s

    upload_first-Shrinks :
        (root : Str) (fs : List File)
        → All (λ f. f.task_id ≡ task) fs
        → Triple (At (DbOnly Left)) (Run.upload_first u root fs) Shrinks (λ _ _. Unit {0})
    unfolding Run.upload_first
    upload_first-Shrinks root [] all = return-Triple none (λ s p. tt)
    upload_first-Shrinks root (f ∷ fs) all =
        bind (upload_or_record-Fewer root f all.0) λ b. return-Triple (some (f, b)) (λ s p. p)

    pub next_upload-Shrinks :
        (root : Str)
        → Triple (At (DbOnly Left)) (Run.next_upload u task root) Shrinks (λ _ _. Unit {0})
    unfolding Run.next_upload
    next_upload-Shrinks root =
        bind (forget (check_context-Keeps (DbOnly Left) u.outside (idle_db u.outside Left))) λ _.
          bind
            (weaken
              (query-Triple (DbOnly Left) u.outside (idle_db u.outside Left)
                (λ fs _. All (λ f. f.task_id ≡ task) fs) Context.caller
                (λ db. ok (drive_upload_candidates task 64 db))
                (λ db w fs p h.
                  subst (All (λ f. f.task_id ≡ task)) (ok-eq h) (candidates-Of task 64 db)))
              (λ s p. p) (λ fs s p. p) (λ e s p. tt))
            λ fs s p. upload_first-Shrinks root fs p.1 s p.0
