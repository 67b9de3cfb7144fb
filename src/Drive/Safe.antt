-- ===== src/Drive/Safe.antt =====
-- The loop of Uploader.Run (internal/drive/upload.go): every copy that it makes follows a listing
-- that showed no object of the file's name, and is of a row of the store that has no Drive ID.
use baidu_drive_mover.Base.{
  ◌≡◌, ℕ, zero, suc, Bool, true, List, [], ◌∷◌, Option, none, some, Result, ok, err, is_empty,
  ok-eq, subst, All,
}
use baidu_drive_mover.Base.Effects.{
  After-state, Triple, Keeps, bind, weaken, return-Triple, raise-Triple, require-Triple,
  handle-Triple,
}
use baidu_drive_mover.Text.{Str, bytes}
use baidu_drive_mover.World.{
  At, World, Failure, IsIdle, Outside, Context, store_call-Keeps, store_call, check_context-Keeps,
  query, query-Triple,
}
use baidu_drive_mover.State.Model.{File, StateError}
use baidu_drive_mover.State.Drive.{
  is_upload_source, start_drive_upload, record_drive_uploaded, mark_drive_verified,
  record_drive_failure, drive_upload_candidates,
}
use baidu_drive_mover.State.Db.{Db}
use baidu_drive_mover.State.History.{Call, perform}
use baidu_drive_mover.Drive.Logical.{find_task, Reason, RemoteItem, remote_path}
use baidu_drive_mover.Drive.Checks
use baidu_drive_mover.Drive.Checks.{Uploader, Problem, permanently, UploadSummary}
use baidu_drive_mover.Drive.Upload
use baidu_drive_mover.Drive.Rows.{HasRow, candidates-HasRow, start_drive_upload-HasRow}
use baidu_drive_mover.Drive.Guarded.{
  IsReader, IsGuarded, Kept, lift-Kept, verify_local_cache-Kept, list-Kept, permanently-Kept,
}
use baidu_drive_mover.Drive.Copies.{upload_one-Ends}
use baidu_drive_mover.Drive.Run

-- `P` is kept by all calls but a copy, and `Clear root f` is what a listing of the parent of `f` in
-- the folder `root` leaves behind, if it shows no object of the name of `f`. A copy is a step from
-- the second to the first, for a file that the store still has, with all that was read of it.
pub record IsWatched {W E : Type 0} (u : Uploader W E) (sha256_hex : Str → Str)
    (P : Db → W → Type 0) (Clear : Str → File → Db → W → Type 0) : Type 0 where
  pub reader : IsReader u P
  pub stored : (c : Call) (db : Db) (w : W) → P db w → P (perform sha256_hex c db) w
  pub idle_clear : (root : Str) (f : File) → IsIdle u.outside (Clear root f)
  pub started :
      (root : Str) (f : File) (now : Str) (db : Db) (w : W)
      → Clear root f db w
      → Clear root f (start_drive_upload f.task_id f.file_id now db).0 w
  pub clear_kept : (root : Str) (f : File) (db : Db) (w : W) → Clear root f db w → P db w
  pub cleared :
      (root : Str) (f : File) (remote out : Str) (items : List RemoteItem) (db : Db) (w : W)
      → P db w
      → Checks.listed_path f.parent_path f.name ≡ ok remote
      → (u.run_task root (bytes "lsjson") (remote ∷ Checks.list_flags) w).1 ≡ ok out
      → u.parse_items out ≡ some items
      → Checks.named_files f.name items ≡ ok []
      → Clear root f db (u.run_task root (bytes "lsjson") (remote ∷ Checks.list_flags) w).0
  pub copied :
      (root : Str) (f : File) (local destination : Str) (db : Db) (w : W)
      → Clear root f db w
      → HasRow f db.files
      → is_empty f.drive_id ≡ true
      → is_upload_source f.status ≡ true
      → remote_path f.logical_path ≡ ok destination
      → P db (u.run_task root (bytes "copyto") (local ∷ destination ∷ Checks.copy_flags) w).0

-- A property of the world together with one of the database.
abbrev With : {W : Type 0} → (Db → W → Type 0) → (Db → Type 0) → Db → W → Type 0
With P R db w = P db w × R db

With-IsIdle :
    {W E : Type 0} {o : Outside W E} (P : Db → W → Type 0) (R : Db → Type 0)
    → IsIdle o P
    → IsIdle o (With P R)
With-IsIdle P R c = record {
  cancelled = λ db w p. (c.cancelled db w p.0, p.1);
  clock = λ db w p. (c.clock db w p.0, p.1);
  fault = λ ctx db w p. (c.fault ctx db w p.0, p.1);
  lost = λ ctx db w p. (c.lost ctx db w p.0, p.1);
}

With-IsReader :
    {W E : Type 0} {u : Uploader W E} (P : Db → W → Type 0) (R : Db → Type 0)
    → IsReader u P
    → IsReader u (With P R)
With-IsReader P R c = record {
  idle = With-IsIdle P R c.idle;
  resolved = λ path db w p. (c.resolved path db w p.0, p.1);
  opened = λ path db w p. (c.opened path db w p.0, p.1);
  measured = λ h db w p. (c.measured h db w p.0, p.1);
  loaded = λ h db w p. (c.loaded h db w p.0, p.1);
  closed = λ h db w p. (c.closed h db w p.0, p.1);
  delayed = λ d db w p. (c.delayed d db w p.0, p.1);
  listed = λ root remote db w p. (c.listed root remote db w p.0, p.1);
}

module _ {W E : Type 0} {u : Uploader W E} {sha256_hex : Str → Str} {P : Db → W → Type 0}
    {Clear : Str → File → Db → W → Type 0} (g : IsWatched u sha256_hex P Clear) where
  -- For one file whose row is in the store.
  abbrev Row : File → Db → Type 0
  Row f db = HasRow f db.files

  guarded :
      (root : Str) (f : File) → IsGuarded u root f (With P (Row f)) (With (Clear root f) (Row f))
  guarded root f = record {
    reader = With-IsReader P (Row f) g.reader;
    idle_clear = With-IsIdle (Clear root f) (Row f) (g.idle_clear root f);
    started = λ now db w p.
        (g.started root f now db w p.0, start_drive_upload-HasRow f f.task_id f.file_id now db p.1);
    clear_kept = λ db w p. (g.clear_kept root f db w p.0, p.1);
    cleared = λ remote out items db w p path ran parsed none_.
        (g.cleared root f remote out items db w p.0 path ran parsed none_, p.1);
    copied = λ local destination db w p no_id source path.
        (g.copied root f local destination db w p.0 p.1 no_id source path, p.1);
  }

  -- Calls of the store.
  stored-Kept :
      {D A : Type 0} (ctx : Context) (m : Str → Db → Db × Result StateError A)
      → ((now : Str) (db : Db) (w : W) → P db w → P (m now db).0 w)
      → Keeps (Kept g.reader) (store_call {D = D} u.outside ctx m)
  stored-Kept ctx m step = store_call-Keeps P u.outside g.reader.idle ctx m step

  verified-step :
      (f : File) (id now : Str) (db : Db) (w : W)
      → P db w
      → P (mark_drive_verified f.task_id f.file_id id now db).0 w
  unfolding perform
  verified-step f id now = g.stored (Call.marks_drive_verified f.task_id f.file_id id now)

  uploaded-step :
      (f : File) (id now : Str) (db : Db) (w : W)
      → P db w
      → P (record_drive_uploaded f.task_id f.file_id id now db).0 w
  unfolding perform
  uploaded-step f id now = g.stored (Call.records_drive_uploaded f.task_id f.file_id id now)

  failed-step :
      (f : File) (message : Str) (permanent : Bool) (now : Str) (db : Db) (w : W)
      → P db w
      → P (record_drive_failure f.task_id f.file_id message permanent now db).0 w
  unfolding perform
  failed-step f message permanent now =
      g.stored (Call.records_drive_failure f.task_id f.file_id message permanent now)

  verify_persisted_remote-Kept :
      (root : Str) (f : File) (md5 id : Str)
      → Keeps (Kept g.reader) (Upload.verify_persisted_remote u root f md5 id)
  unfolding Upload.verify_persisted_remote
  verify_persisted_remote-Kept root f md5 id =
      bind (permanently-Kept g.reader _ (verify_local_cache-Kept g.reader f)) λ current.
        bind (require-Triple _ _ (λ s p _. p) (λ s p _. p)) λ _.
          bind (list-Kept g.reader root f) λ matches.
            bind
              (lift-Kept g.reader
                (Checks.of_reason (Checks.only_item matches Reason.not_exactly_one)))
              λ item. bind (require-Triple _ _ (λ s p _. p) (λ s p _. p)) λ _.
                bind
                  (lift-Kept g.reader
                    (Checks.of_reason (Checks.verify_remote_file item f.size current.1)))
                  λ _.
                    bind
                      (stored-Kept Context.caller (mark_drive_verified f.task_id f.file_id id)
                        (verified-step f id))
                      λ _. return-Triple true (λ s p. p)

  record_and_verify-Kept :
      (root : Str) (f : File) (md5 : Str) (item : RemoteItem)
      → Keeps (Kept g.reader) (Upload.record_and_verify u root f md5 item)
  unfolding Upload.record_and_verify
  record_and_verify-Kept root f md5 item =
      bind
        (stored-Kept Context.caller (record_drive_uploaded f.task_id f.file_id item.id)
          (uploaded-step f item.id))
        λ _. verify_persisted_remote-Kept root f md5 item.id

  -- An upload of a file whose row is in the store.
  upload_one-Kept :
      (root : Str) (f : File)
      → Triple
          (At (With P (Row f)))
          (Upload.upload_one u root f)
          (λ _. Kept g.reader)
          (λ _. Kept g.reader)
  upload_one-Kept root f =
      upload_one-Ends (guarded root f) (Kept g.reader) (Kept g.reader) (λ s p. p.0)
        (λ md5 item.
          weaken (record_and_verify-Kept root f md5 item) (λ s p. p.0) (λ _ s p. p) (λ _ s p. p))

  query-Kept :
      {D A : Type 0} (q : Db → Result StateError A)
      → Keeps (Kept g.reader) (query {D = D} u.outside Context.caller q)
  unfolding query
  query-Kept q = stored-Kept Context.caller (λ _ db. (db, q db)) (λ _ _ _ p. p)

  upload_or_record-Kept :
      (root : Str) (f : File)
      → Triple
          (At (With P (Row f)))
          (Run.upload_or_record u root f)
          (λ _. Kept g.reader)
          (λ _. Kept g.reader)
  unfolding Run.upload_or_record Run.record_failed_upload
  upload_or_record-Kept root f =
      handle-Triple (upload_one-Kept root f) (λ b. return-Triple b (λ s p. p))
        λ e.
          bind
            (stored-Kept Context.background
              (record_drive_failure f.task_id f.file_id (u.message e) (Checks.is_permanent e))
              (failed-step f (u.message e) (Checks.is_permanent e)))
            λ _. raise-Triple e (λ s p. p)

  -- Files whose rows are all in the store.
  abbrev AllRows : List File → Db → Type 0
  AllRows fs db = All (λ f. HasRow f db.files) fs

  upload_first-Kept :
      (root : Str) (fs : List File)
      → Triple
          (At (With P (AllRows fs)))
          (Run.upload_first u root fs)
          (λ _. Kept g.reader)
          (λ _. Kept g.reader)
  unfolding Run.upload_first
  upload_first-Kept root [] = return-Triple none (λ s p. p.0)
  upload_first-Kept root (f ∷ fs) =
      bind (weaken (upload_or_record-Kept root f) (λ s p. (p.0, p.1.0)) (λ _ s p. p) (λ _ s p. p))
        λ b. return-Triple (some (f, b)) (λ s p. p)

  next_upload-Kept : (task root : Str) → Keeps (Kept g.reader) (Run.next_upload u task root)
  unfolding Run.next_upload
  next_upload-Kept task root = bind (check_context-Keeps P u.outside g.reader.idle) λ _.
      bind
        (query-Triple P u.outside g.reader.idle AllRows Context.caller
          (λ db. ok (drive_upload_candidates task 64 db))
          (λ db w fs p e. subst (λ fs. AllRows fs db) (ok-eq e) (candidates-HasRow task 64 db)))
        λ fs. upload_first-Kept root fs

  upload_turn-Kept :
      (s : UploadSummary) (again : UploadSummary → World W → World W × Run.UploadExit u)
      (r : World W × Result (Failure E (Problem E)) (Option (File × Bool)))
      → ((s1 : UploadSummary) (w1 : World W) → At P w1 → At P (again s1 w1).0)
      → At P r.0
      → At P (Run.upload_turn u s again r).0
  unfolding Run.upload_turn
  upload_turn-Kept s again (w, ok none) each p = p
  upload_turn-Kept s again (w, ok (some (f, b))) each p = each _ w p
  upload_turn-Kept s again (w, err x) each p = p

  upload_files-Kept :
      (fuel : ℕ) (task root : Str) (s : UploadSummary) (w : World W)
      → At P w
      → At P (Run.upload_files u fuel task root s w).0
  unfolding Run.upload_files
  upload_files-Kept zero task root s w p = p
  upload_files-Kept (suc fuel) task root s w p =
      upload_turn-Kept s _ (Run.next_upload u task root w)
        (λ s1 w1 p1. upload_files-Kept fuel task root s1 w1 p1)
        (After-state (Kept g.reader) (next_upload-Kept task root w p) (λ _ _ q. q) (λ _ _ q. q))

  task_root_id-Kept : (task : Str) → Keeps (Kept g.reader) (Run.task_root_id u task)
  unfolding Run.task_root_id
  task_root_id-Kept task =
      bind (query-Kept (find_task task))
        λ t. bind (require-Triple _ _ (λ s p _. p) (λ s p _. p)) λ _. return-Triple _ (λ s p. p)

  run_with_root-Kept :
      (fuel : ℕ) (task : Str) (r : World W × Result (Failure E (Problem E)) Str)
      → At P r.0
      → At P (Run.run_with_root u fuel task r).0
  unfolding Run.run_with_root
  run_with_root-Kept fuel task (w, ok root) p = upload_files-Kept fuel task root _ w p
  run_with_root-Kept fuel task (w, err x) p = p

  -- A run of the uploader keeps a property `P` of the database and the outside, whatever it returns,
  -- if these do: every method of the store, the context, the clock and the driver, the calls that
  -- read the cache, the pauses, the listings, and a copy at which these hold: `Clear` for the task's
  -- folder and the file; the store has a row at that moment with all that was read of the file and
  -- with its Drive ID, which is empty; the file was read as ready or being uploaded; and its path is
  -- valid and is the destination. `Clear` is only established by a listing of the file's parent that
  -- has no item of the file's name, and only the start of the upload, the context, the clock and the
  -- driver are known to keep it.
  pub run_uploader-Guarded :
      (task : Str) (s : World W) → At P s → At P (Run.run_uploader u task s).0
  unfolding Run.run_uploader
  run_uploader-Guarded task s p =
      run_with_root-Kept _ task (Run.task_root_id u task s)
        (After-state (Kept g.reader) (task_root_id-Kept task s p) (λ _ _ q. q) (λ _ _ q. q))
