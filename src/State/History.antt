-- ===== src/State/History.antt =====
-- Histories of the store: any sequence of calls of its methods, in any order and with any
-- arguments, as the passes of the application and their retries after a crash make them.
use baidu_drive_mover.Base.{
  arith, ◌⊎◌, ◌∙◌, is_empty, false, ℕ, ◌≡◌, sym, subst, Bool, true, Bool-cases, inl, inr, &&-both,
  List, [], ◌∷◌, Option, some, some-eq, All, if◌then◌else◌, first_where,
}
use baidu_drive_mover.Text.{Str, str_eq→eq}
use baidu_drive_mover.State.Model.{Task, TaskStatus, File, FileStatus}
use baidu_drive_mover.State.Db.{
  Db, CleanupObject, empty_db, in_batch, is_object, is_file, find_file, find_object,
  scope_local_cache_file,
}
use mathlib.Core.Path.{subst₂}
use baidu_drive_mover.State.Rows.{first_where_sound}
use baidu_drive_mover.State.Evolves.{
  Evolves, RowsEvolve, RowsEvolve-refl, RowsEvolve-trans, AllFound, IsBacked, is_late,
}
use baidu_drive_mover.State.Grants.{grants}
use baidu_drive_mover.State.Safety.{
  IsReleased, GrantIsSafe, IsSafe, IsSafe-wider, empty_db-IsSafe, Change, Quiet-Change,
}
use baidu_drive_mover.State.Safety.Authorize.{authorize_batch_cleanup-Authorized}
use baidu_drive_mover.State.Safety.Root.{authorize_task_root_cleanup-Change}
use baidu_drive_mover.State.Quiet.Staging.{
  start_batch-Quiet, record_staged_files-Quiet, complete_batch-Quiet, fail_batch-Quiet,
}
use baidu_drive_mover.State.Quiet.Download.{
  start_download-Quiet, mark_local_ready-Quiet, record_download_failure-Quiet,
}
use baidu_drive_mover.State.Quiet.Drive.{
  set_task_drive_root-Quiet, record_directory_drive_id-Quiet, start_drive_upload-Quiet,
  record_drive_uploaded-Quiet, mark_drive_verified-Quiet, record_drive_failure-Quiet,
}
use baidu_drive_mover.State.Quiet.Tasks.{
  create_task-Quiet, complete_task_scan-Quiet, update_task_status-Quiet,
  update_task_extraction_code-Quiet, upsert_manifest_page-Quiet,
}
use baidu_drive_mover.State.Quiet.Planning.{plan_batches-Quiet, plan_batches_bounded-Quiet}
use baidu_drive_mover.State.Quiet.Cleanup.{
  mark_cleanup_object_done-Quiet, record_cleanup_object_failure-Quiet, complete_batch_cleanup-Quiet,
}
use baidu_drive_mover.State.Tasks.{
  create_task, complete_task_scan, update_task_status, update_task_extraction_code,
}
use baidu_drive_mover.State.Manifest.{ManifestFile, upsert_manifest_page}
use baidu_drive_mover.State.Planning.{plan_batches, plan_batches_bounded}
use baidu_drive_mover.State.Staging.{start_batch, record_staged_files, complete_batch, fail_batch}
use baidu_drive_mover.State.Download.{start_download, mark_local_ready, record_download_failure}
use baidu_drive_mover.State.Drive.{
  set_task_drive_root, record_directory_drive_id, start_drive_upload, record_drive_uploaded,
  mark_drive_verified, record_drive_failure,
}
use baidu_drive_mover.State.Cleanup.{
  authorize_batch_cleanup, mark_cleanup_object_done, record_cleanup_object_failure,
  complete_batch_cleanup, is_cleanup_eligible,
}
use baidu_drive_mover.State.Safety.Gate.{IsCleared}
use baidu_drive_mover.State.CleanupRoot.{authorize_task_root_cleanup}

-- One call of a method that writes: its name, and its arguments.
pub data Call : Type 0 where
  creates_task : Task → Option TaskStatus → Str → Call
  completes_task_scan : Str → Str → Call
  updates_task_status : Str → TaskStatus → Str → Str → Call
  updates_extraction_code : Str → Str → Str → Call
  upserts_manifest_page : Str → List Str → List ManifestFile → Str → Call
  plans_batches : Str → Str → ℕ → Call
  plans_batches_bounded : Str → Str → ℕ → ℕ → Call
  starts_batch : Str → Str → Str → Call
  records_staged_files : Str → Str → List (Str × Str) → Str → Call
  completes_batch : Str → Str → Str → Call
  fails_batch : Str → Str → Str → Bool → Str → Call
  starts_download : Str → Str → Str → Str → Call
  marks_local_ready : Str → Str → Str → Str → Call
  records_download_failure : Str → Str → Str → Bool → Str → Call
  sets_task_drive_root : Str → Str → Str → Str → Call
  records_directory_drive_id : Str → Str → Str → Str → Call
  starts_drive_upload : Str → Str → Str → Call
  records_drive_uploaded : Str → Str → Str → Str → Call
  marks_drive_verified : Str → Str → Str → Str → Call
  records_drive_failure : Str → Str → Str → Bool → Str → Call
  authorizes_batch_cleanup : Str → Str → Str → Call
  marks_cleanup_object_done : Str → Str → Str → Str → Call
  records_cleanup_object_failure : Str → Str → Str → Str → Call
  completes_batch_cleanup : Str → Str → Str → Call
  authorizes_task_root_cleanup : Str → Call

module _ (sha256_hex : Str → Str) where
  -- The database after the call, whether it succeeds or not.
  unfoldable pub perform : Call → Db → Db
  perform (creates_task t status now) db = (create_task t status now db).0
  perform (completes_task_scan id now) db = (complete_task_scan id now db).0
  perform (updates_task_status id status e now) db = (update_task_status id status e now db).0
  perform (updates_extraction_code id code now) db = (update_task_extraction_code id code now db).0
  perform (upserts_manifest_page t ds fs now) db = (upsert_manifest_page t ds fs now db).0
  perform (plans_batches t now m) db = (plan_batches sha256_hex t now m db).0
  perform (plans_batches_bounded t now m b) db = (plan_batches_bounded sha256_hex t now m b db).0
  perform (starts_batch t b now) db = (start_batch t b now db).0
  perform (records_staged_files t b staged now) db = (record_staged_files t b staged now db).0
  perform (completes_batch t b now) db = (complete_batch t b now db).0
  perform (fails_batch t b m permanent now) db = (fail_batch t b m permanent now db).0
  perform (starts_download t f path now) db = (start_download t f path now db).0
  perform (marks_local_ready t f path now) db = (mark_local_ready t f path now db).0
  perform (records_download_failure t f m permanent now) db =
      (record_download_failure t f m permanent now db).0
  perform (sets_task_drive_root t n i now) db = (set_task_drive_root t n i now db).0
  perform (records_directory_drive_id t p i now) db = (record_directory_drive_id t p i now db).0
  perform (starts_drive_upload t f now) db = (start_drive_upload t f now db).0
  perform (records_drive_uploaded t f i now) db = (record_drive_uploaded t f i now db).0
  perform (marks_drive_verified t f i now) db = (mark_drive_verified t f i now db).0
  perform (records_drive_failure t f m permanent now) db =
      (record_drive_failure t f m permanent now db).0
  perform (authorizes_batch_cleanup t b now) db = (authorize_batch_cleanup t b now db).0
  perform (marks_cleanup_object_done t s i now) db = (mark_cleanup_object_done t s i now db).0
  perform (records_cleanup_object_failure t s i m) db = (record_cleanup_object_failure t s i m db).0
  perform (completes_batch_cleanup t b now) db = (complete_batch_cleanup t b now db).0
  perform (authorizes_task_root_cleanup t) db = (authorize_task_root_cleanup t db).0

  -- A history from one database to another.
  pub data Reaches (db : Db) : Db → Type 0 where
    here : Reaches db db
    next : {mid : Db} → Reaches db mid → (c : Call) → Reaches db (perform c mid)

  -- The call is an authorization of a batch that holds the file, and the file is cleared.
  data Opens (db : Db) (task id : Str) : Call → Type 0 where
    opens :
        (batch now : Str) (f : File)
        → in_batch db task batch id ≡ true
        → first_where (is_file task id) db.files ≡ some f
        → IsCleared f
        → Opens db task id (authorizes_batch_cleanup task batch now)

  -- What a call does: the files evolve, and the invariant is kept for a `V` that holds of the files
  -- for which the call opens the cleanup.
  record Performed (c : Call) (db : Db) : Type 1 where
    evolves : RowsEvolve db.files (perform c db).files
    safe :
        (V : Str → Str → Type 0)
        → ((task id : Str) → Opens db task id c → V task id)
        → IsSafe V db
        → IsSafe V (perform c db)

  Change-Performed : (c : Call) (db : Db) → Change db (perform c db) → Performed c db
  Change-Performed c db change = record {
    evolves = change.evolves;
    safe = λ V _ s. change.safe V s;
  }

  perform-Performed : (c : Call) (db : Db) → Performed c db
  unfolding perform
  perform-Performed (authorizes_batch_cleanup t b now) db =
      let done_ = authorize_batch_cleanup-Authorized t b now db in
      record {
        evolves = done_.evolves;
        safe = λ V opened s.
            done_.safe V (λ id f mine found cleared. opened t id (opens b now f mine found cleared))
              s;
      }
  perform-Performed (authorizes_task_root_cleanup t) db =
      Change-Performed _ db (authorize_task_root_cleanup-Change t db)
  perform-Performed (creates_task t status now) db =
      Change-Performed _ db (Quiet-Change (create_task-Quiet t status now db))
  perform-Performed (completes_task_scan id now) db =
      Change-Performed _ db (Quiet-Change (complete_task_scan-Quiet id now db))
  perform-Performed (updates_task_status id status e now) db =
      Change-Performed _ db (Quiet-Change (update_task_status-Quiet id status e now db))
  perform-Performed (updates_extraction_code id code now) db =
      Change-Performed _ db (Quiet-Change (update_task_extraction_code-Quiet id code now db))
  perform-Performed (upserts_manifest_page t ds fs now) db =
      Change-Performed _ db (Quiet-Change (upsert_manifest_page-Quiet t ds fs now db))
  perform-Performed (plans_batches t now m) db =
      Change-Performed _ db (Quiet-Change (plan_batches-Quiet sha256_hex t now m db))
  perform-Performed (plans_batches_bounded t now m b) db =
      Change-Performed _ db (Quiet-Change (plan_batches_bounded-Quiet sha256_hex t now m b db))
  perform-Performed (starts_batch t b now) db =
      Change-Performed _ db (Quiet-Change (start_batch-Quiet t b now db))
  perform-Performed (records_staged_files t b staged now) db =
      Change-Performed _ db (Quiet-Change (record_staged_files-Quiet t b staged now db))
  perform-Performed (completes_batch t b now) db =
      Change-Performed _ db (Quiet-Change (complete_batch-Quiet t b now db))
  perform-Performed (fails_batch t b m permanent now) db =
      Change-Performed _ db (Quiet-Change (fail_batch-Quiet t b m permanent now db))
  perform-Performed (starts_download t f path now) db =
      Change-Performed _ db (Quiet-Change (start_download-Quiet t f path now db))
  perform-Performed (marks_local_ready t f path now) db =
      Change-Performed _ db (Quiet-Change (mark_local_ready-Quiet t f path now db))
  perform-Performed (records_download_failure t f m permanent now) db =
      Change-Performed _ db (Quiet-Change (record_download_failure-Quiet t f m permanent now db))
  perform-Performed (sets_task_drive_root t n i now) db =
      Change-Performed _ db (Quiet-Change (set_task_drive_root-Quiet t n i now db))
  perform-Performed (records_directory_drive_id t p i now) db =
      Change-Performed _ db (Quiet-Change (record_directory_drive_id-Quiet t p i now db))
  perform-Performed (starts_drive_upload t f now) db =
      Change-Performed _ db (Quiet-Change (start_drive_upload-Quiet t f now db))
  perform-Performed (records_drive_uploaded t f i now) db =
      Change-Performed _ db (Quiet-Change (record_drive_uploaded-Quiet t f i now db))
  perform-Performed (marks_drive_verified t f i now) db =
      Change-Performed _ db (Quiet-Change (mark_drive_verified-Quiet t f i now db))
  perform-Performed (records_drive_failure t f m permanent now) db =
      Change-Performed _ db (Quiet-Change (record_drive_failure-Quiet t f m permanent now db))
  perform-Performed (marks_cleanup_object_done t s i now) db =
      Change-Performed _ db (Quiet-Change (mark_cleanup_object_done-Quiet t s i now db))
  perform-Performed (records_cleanup_object_failure t s i m) db =
      Change-Performed _ db (Quiet-Change (record_cleanup_object_failure-Quiet t s i m db))
  perform-Performed (completes_batch_cleanup t b now) db =
      Change-Performed _ db (Quiet-Change (complete_batch_cleanup-Quiet t b now db))

  Reaches-trans : {a b c : Db} → Reaches a b → Reaches b c → Reaches a c
  Reaches-trans r here = r
  Reaches-trans r (next q c) = next (Reaches-trans r q) c

  Reaches-evolve : {db after : Db} → Reaches db after → RowsEvolve db.files after.files
  Reaches-evolve here = RowsEvolve-refl _
  Reaches-evolve (next {mid} r c) =
      RowsEvolve-trans _ _ _ (Reaches-evolve r) (perform-Performed c mid).evolves

  -- A call of AuthorizeBatchCleanup that a history to `db` has made: for a batch that held the file,
  -- while the file was DRIVE_VERIFIED or CLEANUP_PENDING and had a Drive ID.
  pub record WasCleared (db : Db) (task id : Str) : Type 0 where
    pub batch : Str
    pub now : Str
    pub before : Db
    pub file : File
    pub history : Reaches empty_db before
    pub in_its_batch : in_batch before task batch id ≡ true
    pub found : find_file task id before ≡ some file
    pub cleared :
        (file.status ≡ FileStatus.drive_verified) ⊎ (file.status ≡ FileStatus.cleanup_pending)
    pub on_drive : is_empty file.drive_id ≡ false
    pub later : Reaches (perform (authorizes_batch_cleanup task batch now) before) db

  eligible-cases :
      (s : FileStatus)
      → is_cleanup_eligible s ≡ true
      → (s ≡ FileStatus.drive_verified) ⊎ (s ≡ FileStatus.cleanup_pending)
  eligible-cases s h = ground arith

  WasCleared-later :
      (c : Call) (db : Db) (task id : Str)
      → WasCleared db task id
      → WasCleared (perform c db) task id
  WasCleared-later c db task id v = record {
    batch = v.batch;
    now = v.now;
    before = v.before;
    file = v.file;
    history = v.history;
    in_its_batch = v.in_its_batch;
    found = v.found;
    cleared = v.cleared;
    on_drive = v.on_drive;
    later = next v.later c;
  }

  Opens-WasCleared :
      (c : Call) (db : Db) (task id : Str)
      → Reaches empty_db db
      → Opens db task id c
      → WasCleared (perform c db) task id
  unfolding find_file
  Opens-WasCleared _ db task id r (opens batch now f mine found cleared) = record {
    batch = batch;
    now = now;
    before = db;
    file = f;
    history = r;
    in_its_batch = mine;
    found = found;
    cleared = eligible-cases f.status cleared.eligible;
    on_drive = cleared.on_drive;
    later = here;
  }

  Reaches-IsSafe : {db : Db} → Reaches empty_db db → IsSafe (WasCleared db) db
  Reaches-IsSafe here = empty_db-IsSafe _
  Reaches-IsSafe (next {mid} r c) =
      (perform-Performed c mid).safe (WasCleared (perform c mid))
        (λ task id o. Opens-WasCleared c mid task id r o)
        (IsSafe-wider (WasCleared mid) (WasCleared (perform c mid)) mid
          (λ task id v. WasCleared-later c mid task id v) (Reaches-IsSafe r))

granted_of_found :
    (P : Str × Str × Str → Type 0) (p : CleanupObject → Bool) (os : List CleanupObject)
    {o : CleanupObject}
    → All P (grants os)
    → first_where p os ≡ some o
    → o.cleanup_allowed ≡ true
    → P (o.task_id, o.scope, o.object_id)
unfolding grants first_where
granted_of_found P p [] all found allowed = cc
granted_of_found P p (x ∷ os) {o} all found allowed = elim (Bool-cases (p x)) [
  | inl hit ↦
      let e : x ≡ o = some-eq (rw hit at found) in
      let allowed' = subst (λ (y : CleanupObject). y.cleanup_allowed ≡ true) (sym e) allowed in
      let all' = rw allowed' at all in
      subst (λ (y : CleanupObject). P (y.task_id, y.scope, y.object_id)) e all'.0
  | inr miss ↦ granted_of_found P p os (rest x.cleanup_allowed all) (rw miss at found) allowed
]
  where
    rest :
        (b : Bool)
        → All P (if b then (x.task_id, x.scope, x.object_id) ∷ grants os else grants os)
        → All P (grants os)
    rest true h = h.1
    rest false h = h

object_keys :
    (task scope id : Str) (o : CleanupObject)
    → is_object task scope id o ≡ true
    → (task ≡ o.task_id) × (scope ≡ o.scope) × (id ≡ o.object_id)
unfolding is_object
object_keys task scope id o h =
    let (a, rest) = &&-both _ _ h in
    let (b, c) = &&-both _ _ rest in
    (str_eq→eq task o.task_id a, str_eq→eq scope o.scope b, str_eq→eq id o.object_id c)

IsSafe-of_found :
    (V : Str → Str → Type 0) (db : Db) (task id : Str) (o : CleanupObject)
    → IsSafe V db
    → first_where (is_object task scope_local_cache_file id) db.owned_objects ≡ some o
    → o.cleanup_allowed ≡ true
    → V task id × ((f : File) × (first_where (is_file task id) db.files ≡ some f) × IsReleased f)
IsSafe-of_found V db task id o s found allowed =
    let (a, b, c) =
      object_keys task scope_local_cache_file id o (first_where_sound _ db.owned_objects found) in
    subst₂
      (λ t i. V t i × ((f : File) × (first_where (is_file t i) db.files ≡ some f) × IsReleased f))
      (sym a) (sym c)
      (granted_of_found (GrantIsSafe V db) _ db.owned_objects s.granted found allowed (sym b))

-- After any history of calls from the empty store, if the local cache object of a file may be
-- deleted, then the file is there, has a Drive ID, and is CLEANUP_PENDING, DONE or
-- FAILED_PERMANENT; and the history has made a call of AuthorizeBatchCleanup for a batch that held
-- the file, before which the file was DRIVE_VERIFIED or CLEANUP_PENDING and had the same Drive ID.
pub Reaches-IsReleased :
    (sha256_hex : Str → Str) (db : Db) (task id : Str) (o : CleanupObject)
    → Reaches sha256_hex empty_db db
    → find_object task scope_local_cache_file id db ≡ some o
    → o.cleanup_allowed ≡ true
    → (f : File) × (find_file task id db ≡ some f)
      × IsReleased f
      × ((v : WasCleared sha256_hex db task id) × (f.drive_id ≡ v.file.drive_id))
unfolding find_object find_file
Reaches-IsReleased sha256_hex db task id o history found allowed =
    let (v, (f, at, r)) =
      IsSafe-of_found _ db task id o (Reaches-IsSafe sha256_hex history) found allowed in
    let (g, at', e) =
      (Reaches-evolve sha256_hex (
          Reaches-trans sha256_hex (next here (Call.authorizes_batch_cleanup task v.batch v.now))
            v.later)).later
        task id v.file v.found in
    (
      f,
      at,
      r,
      (
        v,
        subst (λ (x : File). x.drive_id ≡ v.file.drive_id) (some-eq (sym at' ∙ at))
            (e.drive_kept v.on_drive),
      ),
    )

-- After any history of calls, a file that was there before is still found by its key, with the same
-- path, parent, name and size; its status has not fallen back in the order of the pipeline, where a
-- file that waits for a retry stands before its staging and one that failed for good stands last;
-- and a Drive ID that it had is unchanged.
pub Reaches-Evolves :
    (sha256_hex : Str → Str) (db after : Db) (task id : Str) (f : File)
    → Reaches sha256_hex db after
    → find_file task id db ≡ some f
    → (g : File) × (find_file task id after ≡ some g) × Evolves f g
unfolding find_file
Reaches-Evolves sha256_hex db after task id f history found =
    (Reaches-evolve sha256_hex history).later task id f found

empty-AllFound : AllFound IsBacked []
unfolding first_where
empty-AllFound task id f h = cc

-- After any history of calls from the empty store, a file that is DRIVE_VERIFIED, CLEANUP_PENDING
-- or DONE has a Drive ID.
pub Reaches-IsBacked :
    (sha256_hex : Str → Str) (db : Db) (task id : Str) (f : File)
    → Reaches sha256_hex empty_db db
    → find_file task id db ≡ some f
    → is_late f.status ≡ true
    → is_empty f.drive_id ≡ false
unfolding find_file
Reaches-IsBacked sha256_hex db task id f history found =
    (Reaches-evolve sha256_hex history).backed empty-AllFound task id f found
