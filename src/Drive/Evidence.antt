-- ===== src/Drive/Evidence.antt =====
-- What an upload of internal/drive/upload.go that succeeds has seen: its last three calls.
use baidu_drive_mover.Base.{
  ◌≡◌, refl, ap, subst, ℕ, Bool, true, false, List, [], ◌∷◌, some, none, Option, ok, err, is_empty,
  ◌==◌, arith, Result,
}
use baidu_drive_mover.Base.Effects.{
  After-ok, After-any, Triple, bind, return-Triple, require-Triple, lift-Triple, ran-Triple,
  raise-Triple,
}
use baidu_drive_mover.Text.{Str, bytes, equal_fold, trim_space, str_eq→eq}
use baidu_drive_mover.World.{World, Failure, IsIdle, Context, Act, store_call, store_call-Triple}
use baidu_drive_mover.State.Model.{File, FileStatus}
use baidu_drive_mover.State.Db.{Db, find_file}
use baidu_drive_mover.State.Drive.{mark_drive_verified}
use baidu_drive_mover.State.Drive.Verified.{mark_drive_verified_lem}
use baidu_drive_mover.Drive.Logical.{Reason, RemoteItem, hash_value}
use baidu_drive_mover.Drive.Checks
use baidu_drive_mover.Drive.Checks.{Uploader, Problem, permanently}
use baidu_drive_mover.Drive.Upload
use baidu_drive_mover.Drive.Guarded.{of_reason-ok}

-- An object of a listing agrees with the file and with the MD5 of its cache.
pub record Agrees (item : RemoteItem) (size : ℕ) (md5 : Str) : Type 0 where
  pub regular : item.is_dir ≡ false
  pub identified : is_empty (trim_space item.id) ≡ false
  pub same_size : item.size ≡ some size
  pub has_md5 : is_empty (hash_value item.hashes (bytes "MD5")) ≡ false
  pub same_md5 : equal_fold (hash_value item.hashes (bytes "MD5")) md5 ≡ true

same_size-eq :
    (size : Option ℕ) (n : ℕ) → elim size [ none ↦ false | some k ↦ k == n ] ≡ true → size ≡ some n
same_size-eq none n h = cc
same_size-eq (some k) n h = ground arith

pub verify_remote_file-Agrees :
    (item : RemoteItem) (size : ℕ) (md5 : Str)
    → Checks.verify_remote_file item size md5 ≡ ok tt
    → Agrees item size md5
unfolding Checks.verify_remote_file
verify_remote_file-Agrees item size md5 h = record {
  regular = ground arith;
  identified = ground arith;
  same_size = same_size-eq item.size size (ground arith);
  has_md5 = ground arith;
  same_md5 = ground arith;
}

-- The last three calls of an upload that ended in `after`: a read of the cache, a listing, in which
-- one object has the name of the file, and it agrees with what was read; and the record of it.
pub record Evidence {W E : Type 0} (u : Uploader W E) (root : Str) (f : File) (after : World W)
    : Type 0 where
  pub before : World W
  pub read : World W
  pub listed : World W
  pub cache : Str
  pub md5 : Str
  pub item : RemoteItem
  pub reads : Upload.verify_local_cache u f before ≡ (read, ok (cache, md5))
  pub lists : Upload.list_named_files u root f read ≡ (listed, ok (item ∷ []))
  pub agrees : Agrees item f.size md5
  pub marks :
      store_call {D = Problem E} u.outside Context.caller
        (mark_drive_verified f.task_id f.file_id item.id)
        listed
      ≡ (after, ok tt)

module _ {W E : Type 0} (u : Uploader W E) (root : Str) (f : File) where
  abbrev Any : World W → Type 0
  Any _ = Unit {0}

  any : {A : Type 0} (m : Act W E (Problem E) A) → Triple Any m (λ _. Any) (λ _ _. Unit {0})
  any m s p = After-any (m s)

  mark_permanent-ok :
      {A : Type 0} (r : World W × Result (Failure E Reason) A) {t : World W} {a : A}
      → Checks.mark_permanent r ≡ (t, ok a)
      → r ≡ (t, ok a)
  unfolding Checks.mark_permanent
  mark_permanent-ok (s, ok b) h = ground arith
  mark_permanent-ok (s, err e) h = cc

  only_item-eq :
      (items : List RemoteItem) {item : RemoteItem}
      → Checks.only_item items Reason.not_exactly_one ≡ ok item
      → items ≡ item ∷ []
  unfolding Checks.only_item
  only_item-eq [] h = cc
  only_item-eq (item ∷ []) h = ground arith
  only_item-eq (item ∷ _ ∷ _) h = cc

  abbrev Proves : Act W E (Problem E) Bool → Type 0
  Proves m = Triple Any m (λ _. Evidence u root f) (λ _ _. Unit {0})

  -- Behind the read of the cache, and behind the listing.
  abbrev Read : Str × Str → World W → Type 0
  Read current t =
      (s : World W) × Any s × (permanently (Upload.verify_local_cache u f) s ≡ (t, ok current))

  abbrev Seen : Str × Str → List RemoteItem → World W → Type 0
  Seen current items t =
      (s : World W) × Read current s × (Upload.list_named_files u root f s ≡ (t, ok items))

  -- All that is known before the object is recorded as verified.
  abbrev Checked : Str → Str × Str → RemoteItem → World W → Type 0
  Checked id current item t =
      Seen current (item ∷ []) t × (item.id ≡ id) × Agrees item f.size current.1

  evidence :
      (id : Str) (current : Str × Str) (item : RemoteItem) (t after : World W)
      → Checked id current item t
      → store_call {D = Problem E} u.outside Context.caller
          (mark_drive_verified f.task_id f.file_id id)
          t
        ≡ (after, ok tt)
      → Evidence u root f after
  evidence id current item t after ((read, (before, _, reads), lists), same, agrees) marks =
      record {
        before = before;
        read = read;
        listed = t;
        cache = current.0;
        md5 = current.1;
        item = item;
        reads = mark_permanent-ok _ reads;
        lists = lists;
        agrees = agrees;
        marks = rw same marks;
      }

  verify_persisted_remote-Evidence :
      (md5 id : Str) → Proves (Upload.verify_persisted_remote u root f md5 id)
  unfolding Upload.verify_persisted_remote
  verify_persisted_remote-Evidence md5 id =
      bind (ran-Triple Any (permanently (Upload.verify_local_cache u f))) λ current.
        bind (require-Triple _ _ (λ s p _. p) (λ s p _. tt)) λ _.
          bind (ran-Triple (Read current) (Upload.list_named_files u root f)) λ matches.
            bind {Q = λ item. Seen current (item ∷ [])}
              (lift-Triple (Checks.of_reason (Checks.only_item matches Reason.not_exactly_one))
                (λ s item p h.
                  subst (λ items. Seen current items s) (only_item-eq matches (of_reason-ok _ h)) p)
                (λ s e p. tt))
              λ item.
                bind {Q = λ _ s. Seen current (item ∷ []) s × (item.id ≡ id)}
                  (require-Triple _ _ (λ s p h. (p, str_eq→eq item.id id h)) (λ s p _. tt))
                  λ _.
                    bind {Q = λ _. Checked id current item}
                      (lift-Triple
                        (Checks.of_reason (Checks.verify_remote_file item f.size current.1))
                        (λ s _ p h. (
                          p.0,
                          p.1,
                          verify_remote_file-Agrees item f.size current.1 (of_reason-ok _ h),
                        ))
                        (λ s e p. tt))
                      λ _.
                        bind
                          (ran-Triple (Checked id current item) (
                            store_call u.outside Context.caller
                              (mark_drive_verified f.task_id f.file_id id)))
                          λ _.
                            return-Triple true
                              (λ after q. evidence id current item q.0 after q.1 q.2)

  record_and_verify-Evidence :
      (md5 : Str) (item : RemoteItem) → Proves (Upload.record_and_verify u root f md5 item)
  unfolding Upload.record_and_verify
  record_and_verify-Evidence md5 item =
      bind (any _) λ _. verify_persisted_remote-Evidence md5 item.id

  upload_listed-Evidence :
      (local md5 : Str) (items : List RemoteItem)
      → Proves (Upload.upload_listed u root f local md5 items)
  unfolding Upload.upload_listed Upload.upload_new Upload.accept_existing
  upload_listed-Evidence local md5 [] = bind (any _) λ _. bind (any _) λ _.
      bind (any _) λ _. bind (any _) λ item. bind (any _) λ _. record_and_verify-Evidence md5 item
  upload_listed-Evidence local md5 (item ∷ []) =
      bind (any _) λ _. bind (any _) λ _. record_and_verify-Evidence md5 item
  upload_listed-Evidence local md5 (item ∷ _ ∷ _) = raise-Triple _ (λ s p. tt)

  upload_one-Evidence : Proves (Upload.upload_one u root f)
  unfolding Upload.upload_one
  upload_one-Evidence =
      bind (any _) λ cached. bind (any _) λ items. upload_listed-Evidence cached.0 cached.1 items

  idle : IsIdle u.outside (λ (_ : Db) (_ : W). Unit {0})
  idle = record {
    cancelled = λ _ _ _. tt;
    clock = λ _ _ _. tt;
    fault = λ _ _ _ _. tt;
    lost = λ _ _ _ _. tt;
  }

  -- The row of the file, verified as the object with the ID.
  abbrev IsRecorded : Str → Db → Type 0
  IsRecorded id db =
      (r : File) × (find_file f.task_id f.file_id db ≡ some r)
      × (r.status ≡ FileStatus.drive_verified)
      × (r.drive_id ≡ trim_space id)

  marked :
      (id : Str) (s after : World W)
      → store_call {D = Problem E} u.outside Context.caller
          (mark_drive_verified f.task_id f.file_id id)
          s
        ≡ (after, ok tt)
      → IsRecorded id after.db
  marked id s after h =
      let (_, recorded) =
        After-ok
          (store_call-Triple (λ _ _. Unit {0}) u.outside idle (λ _. IsRecorded id) Context.caller
            (mark_drive_verified f.task_id f.file_id id) (λ _ _ _ _. tt)
            (λ now db w a _ done_.
              let (r, _, same, _, found) =
                mark_drive_verified_lem f.task_id f.file_id id now db done_ in
              (_, found, refl, same))
            s tt)
          (ap (λ r. r.1) h) in
      subst (λ (t : World W). IsRecorded id t.db) (ap (λ r. r.0) h) recorded

  -- If an upload returns no error, then it has ended with these calls, in this order: it read the
  -- local cache, it listed the parent folder, in which exactly one object had the name of the file,
  -- a regular file with an ID, with the size of the file and with an MD5 that is that of the cache
  -- just read; and it recorded this object's ID as verified. The row of the file is then verified
  -- under this ID.
  pub upload_one-Verified :
      (s : World W) (b : Bool)
      → (Upload.upload_one u root f s).1 ≡ ok b
      → (e : Evidence u root f (Upload.upload_one u root f s).0) × (r : File) × (find_file f.task_id
            f.file_id
            (Upload.upload_one u root f s).0.db
          ≡ some r)
        × (r.status ≡ FileStatus.drive_verified)
        × (r.drive_id ≡ trim_space e.item.id)
  upload_one-Verified s b h =
      let e = After-ok (upload_one-Evidence s tt) h in
      let (r, found, verified, same) = marked e.item.id e.listed _ e.marks in
      (e, r, found, verified, same)
