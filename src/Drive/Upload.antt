-- ===== src/Drive/Upload.antt =====
-- internal/drive/upload.go: how Uploader.Run uploads one file, or finds it uploaded.
use baidu_drive_mover.Base.{
  ℕ, zero, suc, ◌-◌, ◌*◌, ◌^◌, Bool, true, not, ◌&&◌, List, [], ◌∷◌, Option, none, some,
  if◌then◌else◌, ◌==◌, is_empty,
}
use baidu_drive_mover.Base.Effects.{
  ◌>>=◌, ◌>>◌, return, raise, require, lift, expect, handle, caught,
}
use baidu_drive_mover.Text.{Str, bytes, str_eq, equal_fold, trim_space}
use baidu_drive_mover.World.{Context, Failure, Act, report, outside_call, store_call}
use baidu_drive_mover.State.Model.{File, FileStatus}
use baidu_drive_mover.State.Drive.{start_drive_upload, record_drive_uploaded, mark_drive_verified}
use baidu_drive_mover.Drive.Logical.{Reason, RemoteItem, remote_path}
use baidu_drive_mover.Drive.Checks.{
  Problem, Uploader, max_safe_upload_attempts, verify_remote_file, named_files, of_reason, reject,
  permanently, check_metadata, listed_path, list_flags, copy_flags, of_check, only_item,
}

module _ {W E : Type 0} (u : Uploader W E) where
  -- `defer cacheFile.Close()`.
  unfoldable pub close_after : {D A : Type 0} → ℕ → Act W E D A → Act W E D A
  close_after handle_ m s = (record (m s).0 { outside = u.close handle_ (m s).0.outside }, (m s).1)

  unfoldable pub check_cache : File → ℕ → Act W E Reason Str
  check_cache f h = do
    size ← outside_call (u.stat_size h)
    require (size == f.size) (Failure.found Reason.cache_size)
    content ← outside_call (u.read_all h)
    let md5 = u.md5_hex content
    require (not (not (is_empty f.md5) && not (equal_fold (trim_space f.md5) md5)))
        (Failure.found Reason.cache_md5)
    return md5

  -- The full path of the cache file, and the MD5 of its content.
  unfoldable pub verify_local_cache : File → Act W E Reason (Str × Str)
  verify_local_cache f = do
    relative ← lift (of_check (check_metadata f))
    full ← outside_call (u.resolve_temp_relative relative)
    h ← outside_call (u.open_temp_file relative)
    md5 ← close_after h (check_cache f h)
    return (full, md5)

  unfoldable pub list_named_files : Str → File → Act W E (Problem E) (List RemoteItem)
  list_named_files root f = do
    remote ← lift (of_reason (listed_path f.parent_path f.name))
    out ← outside_call (u.run_task root (bytes "lsjson") (remote ∷ list_flags))
    items ← expect (u.parse_items out) (Failure.found Problem.bad_listing)
    lift (of_reason (named_files f.name items))

  unfoldable pub verify_persisted_remote : Str → File → Str → Str → Act W E (Problem E) Bool
  verify_persisted_remote root f md5 id = do
    current ← permanently (verify_local_cache f)
    require (equal_fold current.1 md5) (reject Reason.cache_changed)
    matches ← list_named_files root f
    item ← lift (of_reason (only_item matches Reason.not_exactly_one))
    require (str_eq item.id id) (reject Reason.id_changed)
    lift (of_reason (verify_remote_file item f.size current.1))
    store_call u.outside Context.caller (mark_drive_verified f.task_id f.file_id id)
    return true

  -- What the uploader does with the one object of the file's name.
  unfoldable pub record_and_verify : Str → File → Str → RemoteItem → Act W E (Problem E) Bool
  record_and_verify root f md5 item = do
    store_call u.outside Context.caller (record_drive_uploaded f.task_id f.file_id item.id)
    verify_persisted_remote root f md5 item.id

  unfoldable pub accept_existing : Str → File → Str → RemoteItem → Act W E (Problem E) Bool
  accept_existing root f md5 item = do
    lift (of_reason (verify_remote_file item f.size md5))
    require (not (not (is_empty f.drive_id) && not (str_eq f.drive_id item.id)))
        (reject Reason.id_changed)
    record_and_verify root f md5 item

  unfoldable pub begin_upload : FileStatus → File → Act W E (Problem E) (Unit {0})
  begin_upload FileStatus.local_ready f =
      store_call u.outside Context.caller (start_drive_upload f.task_id f.file_id)
  begin_upload FileStatus.drive_uploading f = return tt
  begin_upload _ f = raise (reject Reason.not_eligible)

  -- The error of a listing is that of the listing only if the copy before it went well.
  unfoldable pub relist_failed :
      {A : Type 0} → Option (Failure E (Problem E)) → Failure E (Problem E) → Act W E (Problem E) A
  relist_failed none e = raise e
  relist_failed (some _) e = raise (Failure.found Problem.not_reconciled)

  -- The end of a turn in which no object was found: whether there is another one.
  unfoldable pub pause : Option (Failure E (Problem E)) → ℕ → Bool → Act W E (Problem E) (Unit {0})
  pause none attempt last = raise (Failure.found Problem.not_observed)
  pause (some _) attempt last =
      if last
      then raise (Failure.found Problem.not_proven)
      else report (u.retry_delay (1000000000 * 2 ^ (attempt - 1)))

  -- One object ends the loop, two are an error, and none leads on.
  unfoldable pub settle :
      Act W E (Problem E) RemoteItem → List RemoteItem → Act W E (Problem E) RemoteItem
  settle next [] = next
  settle next (item ∷ []) = return item
  settle next (_ ∷ _ ∷ _) = raise (reject Reason.ambiguous)

  -- One turn of the loop of copies.
  unfoldable pub copy_turn :
      Act W E (Problem E) RemoteItem
      → Bool
      → ℕ
      → Str
      → File
      → Str
      → Str
      → Act W E (Problem E) RemoteItem
  copy_turn again last attempt root f local destination = do
    e ← caught (outside_call (u.run_task root (bytes "copyto") (local ∷ destination ∷ copy_flags)))
    matches ← handle (list_named_files root f) return (relist_failed e)
    settle
        (do
          pause e attempt last
          later ←
              handle (list_named_files root f) return
                (λ _. raise (Failure.found Problem.not_relisted))
          settle again later)
        matches

  -- The attempts that are left; the last one does not lead on.
  unfoldable pub copy_loop : ℕ → Str → File → Str → Str → Act W E (Problem E) RemoteItem
  copy_loop zero root f local destination = raise (Failure.found Problem.not_proven)
  copy_loop (suc left) root f local destination =
      copy_turn (λ s. copy_loop left root f local destination s) (left == 0)
        (max_safe_upload_attempts - left) root f local destination

  unfoldable pub upload_new : Str → File → Str → Str → Act W E (Problem E) Bool
  upload_new root f local md5 = do
    require (is_empty f.drive_id) (reject Reason.no_longer_present)
    begin_upload f.status f
    destination ← lift (of_reason (remote_path f.logical_path))
    item ← copy_loop max_safe_upload_attempts root f local destination
    lift (of_reason (verify_remote_file item f.size md5))
    record_and_verify root f md5 item

  unfoldable pub upload_listed : Str → File → Str → Str → List RemoteItem → Act W E (Problem E) Bool
  upload_listed root f local md5 [] = upload_new root f local md5
  upload_listed root f local md5 (item ∷ []) = accept_existing root f md5 item
  upload_listed root f local md5 (_ ∷ _ ∷ _) = raise (reject Reason.ambiguous)

  unfoldable pub upload_one : Str → File → Act W E (Problem E) Bool
  upload_one root f = do
    cached ← permanently (verify_local_cache f)
    matches ← list_named_files root f
    upload_listed root f cached.0 cached.1 matches
