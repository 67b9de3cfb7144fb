-- ===== src/Drive/Copies.antt =====
-- The copies of internal/drive/upload.go, and one upload: each copy follows a listing that showed no
-- object.
use baidu_drive_mover.Base.{
  ◌≡◌, refl, ℕ, zero, suc, Bool, true, false, List, [], ◌∷◌, Option, none, some, ok, is_empty, ap,
  subst,
}
use baidu_drive_mover.Base.Effects.{
  After-weaken, returned, raised, Triple, Keeps, bind, weaken, lift, caught, return-Triple,
  caught-Triple, return, raise, raise-Triple, lift-Triple, require-Triple, handle-Triple,
}
use baidu_drive_mover.Text.{Str, bytes}
use baidu_drive_mover.World.{
  World, Failure, Context, Act, outside_call, report-Keeps, store_call-Keeps, outside_call-Ran,
}
use baidu_drive_mover.State.Model.{File, FileStatus}
use baidu_drive_mover.State.Drive.{is_upload_source, start_drive_upload}
use baidu_drive_mover.State.Db.{Db}
use baidu_drive_mover.Drive.Logical.{RemoteItem, remote_path}
use baidu_drive_mover.Drive.Checks
use baidu_drive_mover.Drive.Checks.{Uploader, Problem, permanently}
use baidu_drive_mover.Drive.Upload
use baidu_drive_mover.Drive.Guarded.{
  of_reason-ok, IsGuarded, Kept, IsClear, Listed, lift-Kept, verify_local_cache-Kept,
  list_named_files-Kept, permanently-Kept,
}

module _ {W E : Type 0} {u : Uploader W E} {root : Str} {f : File} {P Clear : Db → W → Type 0}
    (g : IsGuarded u root f P Clear) where
  -- An action that starts behind a listing without an object.
  abbrev FromClear : {A : Type 0} → Act W E (Problem E) A → Type 0
  FromClear m = Triple (IsClear g) m (λ _. Kept g.reader) (λ _. Kept g.reader)

  settle-Kept :
      (next : Act W E (Problem E) RemoteItem) (items : List RemoteItem)
      → FromClear next
      → Triple
          (Listed g items)
          (Upload.settle u next items)
          (λ _. Kept g.reader)
          (λ _. Kept g.reader)
  unfolding Upload.settle return raise
  settle-Kept next [] n s l = n s (l.1 refl)
  settle-Kept next (item ∷ []) n s l = returned l.0
  settle-Kept next (item ∷ _ ∷ _) n s l = raised l.0

  relist_failed-Kept :
      {A : Type 0} {Q : A → World W → Type 0} (e : Option (Failure E (Problem E)))
      (x : Failure E (Problem E))
      → Triple (Kept g.reader) (Upload.relist_failed u e x) Q (λ _. Kept g.reader)
  unfolding Upload.relist_failed
  relist_failed-Kept none x = raise-Triple x (λ s p. p)
  relist_failed-Kept (some _) x = raise-Triple _ (λ s p. p)

  pause-Kept :
      (e : Option (Failure E (Problem E))) (attempt : ℕ) (last : Bool)
      → Keeps (Kept g.reader) (Upload.pause u e attempt last)
  unfolding Upload.pause
  pause-Kept none attempt last = raise-Triple _ (λ s p. p)
  pause-Kept (some _) attempt true = raise-Triple _ (λ s p. p)
  pause-Kept (some _) attempt false = report-Keeps P _ (λ db w p. g.reader.delayed _ db w p)

  begin_upload-IsClear :
      (status : FileStatus)
      → Triple
          (IsClear g)
          (Upload.begin_upload u status f)
          (λ _ s. IsClear g s × (is_upload_source status ≡ true))
          (λ _. Kept g.reader)
  unfolding Upload.begin_upload
  begin_upload-IsClear FileStatus.local_ready =
      weaken
        (store_call-Keeps Clear u.outside g.idle_clear Context.caller
          (start_drive_upload f.task_id f.file_id) g.started)
        (λ s p. p) (λ _ s p. (p, refl)) (λ _ s p. g.clear_kept s.db s.outside p)
  begin_upload-IsClear FileStatus.drive_uploading = return-Triple tt (λ s p. (p, refl))
  begin_upload-IsClear _ = raise-Triple _ (λ s p. g.clear_kept s.db s.outside p)

  module _ (local destination : Str) (no_id : is_empty f.drive_id ≡ true)
      (source : is_upload_source f.status ≡ true)
      (path : remote_path f.logical_path ≡ ok destination) where
    copied-Kept : FromClear (
        caught (
          outside_call
            (u.run_task root (bytes "copyto") (local ∷ destination ∷ Checks.copy_flags))))
    copied-Kept = caught-Triple λ s p.
        After-weaken
          (outside_call-Ran Clear
            (u.run_task root (bytes "copyto") (local ∷ destination ∷ Checks.copy_flags)) s p)
          (λ out t (w, q, ran).
            subst (P t.db) (ap (λ r. r.0) ran)
              (g.copied local destination t.db w q no_id source path))
          (λ e t (w, q, ran).
            subst (P t.db) ran (g.copied local destination t.db w q no_id source path))

    copy_turn-FromClear :
        (again : Act W E (Problem E) RemoteItem) (last : Bool) (attempt : ℕ)
        → FromClear again
        → FromClear (Upload.copy_turn u again last attempt root f local destination)
    unfolding Upload.copy_turn
    copy_turn-FromClear again last attempt a = bind copied-Kept λ e.
        bind
          (handle-Triple (list_named_files-Kept g)
            (λ items. return-Triple {Q = Listed g} items (λ s l. l)) (relist_failed-Kept e))
          λ matches. settle-Kept _ matches (
            weaken {P = Kept g.reader}
              (bind (pause-Kept e attempt last) λ _.
                bind
                  (handle-Triple (list_named_files-Kept g)
                    (λ items. return-Triple {Q = Listed g} items (λ s l. l))
                    (λ x. raise-Triple _ (λ s p. p)))
                  λ later. settle-Kept again later a)
              (λ s p. g.clear_kept s.db s.outside p) (λ _ s p. p) (λ _ s p. p))

    copy_loop-FromClear : (left : ℕ) → FromClear (Upload.copy_loop u left root f local destination)
    unfolding Upload.copy_loop
    copy_loop-FromClear zero = raise-Triple _ (λ s p. g.clear_kept s.db s.outside p)
    copy_loop-FromClear (suc left) = copy_turn-FromClear _ _ _ (copy_loop-FromClear left)

  -- What is proved of the end of an upload, from its first record in the store on.
  module _ (Final Rest : World W → Type 0) (rest : (s : World W) → Kept g.reader s → Rest s)
      (ends : (md5 : Str) (item : RemoteItem)
        → Triple
            (Kept g.reader)
            (Upload.record_and_verify u root f md5 item)
            (λ _. Final)
            (λ _. Rest)) where
    failed :
        {A : Type 0} {Q : World W → Type 0} {Q' : A → World W → Type 0} {m : Act W E (Problem E) A}
        → Triple Q m Q' (λ _. Kept g.reader)
        → Triple Q m Q' (λ _. Rest)
    failed t = weaken t (λ s p. p) (λ _ s p. p) (λ _ s p. rest s p)

    accept_verified :
        (md5 : Str) (item : RemoteItem)
        → Triple
            (Kept g.reader)
            (lift (Checks.of_reason {E = E} (Checks.verify_remote_file item f.size md5)))
            (λ _. Kept g.reader)
            (λ _. Rest)
    accept_verified md5 item =
        failed (lift-Kept g.reader (Checks.of_reason (Checks.verify_remote_file item f.size md5)))

    upload_new-Ends :
        (local md5 : Str)
        → Triple (IsClear g) (Upload.upload_new u root f local md5) (λ _. Final) (λ _. Rest)
    unfolding Upload.upload_new
    upload_new-Ends local md5 =
        bind {Q = λ _ s. IsClear g s × (is_empty f.drive_id ≡ true)}
          (failed (require-Triple _ _ (λ s p h. (p, h)) (λ s p _. g.clear_kept s.db s.outside p)))
          λ _.
            bind
              {Q = λ _ s.
                IsClear g s × (is_empty f.drive_id ≡ true) × (is_upload_source f.status ≡ true)}
              (failed λ s p.
                After-weaken (begin_upload-IsClear f.status s p.0) (λ _ t q. (q.0, p.1, q.1))
                  (λ _ t q. q))
              λ _.
                bind
                  {Q = λ destination s.
                    IsClear g s
                    × (is_empty f.drive_id ≡ true)
                    × (is_upload_source f.status ≡ true)
                    × (remote_path f.logical_path ≡ ok destination)}
                  (failed (
                    lift-Triple (Checks.of_reason (remote_path f.logical_path))
                      (λ s d p h. (p.0, p.1, p.2, of_reason-ok _ h))
                      (λ s e p. g.clear_kept s.db s.outside p.0)))
                  λ destination.
                    bind
                      (failed λ s p.
                        copy_loop-FromClear local destination p.1 p.2 p.3
                          Checks.max_safe_upload_attempts s p.0)
                      λ item. bind (accept_verified md5 item) λ _. ends md5 item

    accept_existing-Ends :
        (md5 : Str) (item : RemoteItem)
        → Triple (Kept g.reader) (Upload.accept_existing u root f md5 item) (λ _. Final) (λ _. Rest)
    unfolding Upload.accept_existing
    accept_existing-Ends md5 item =
        bind (accept_verified md5 item)
          λ _. bind (failed (require-Triple _ _ (λ s p _. p) (λ s p _. p))) λ _. ends md5 item

    upload_listed-Ends :
        (local md5 : Str) (items : List RemoteItem)
        → Triple
            (Listed g items)
            (Upload.upload_listed u root f local md5 items)
            (λ _. Final)
            (λ _. Rest)
    unfolding Upload.upload_listed raise
    upload_listed-Ends local md5 [] s l = upload_new-Ends local md5 s (l.1 refl)
    upload_listed-Ends local md5 (item ∷ []) s l = accept_existing-Ends md5 item s l.0
    upload_listed-Ends local md5 (item ∷ _ ∷ _) s l = raised (rest s l.0)

    pub upload_one-Ends :
        Triple (Kept g.reader) (Upload.upload_one u root f) (λ _. Final) (λ _. Rest)
    unfolding Upload.upload_one
    upload_one-Ends =
        bind (failed (permanently-Kept g.reader _ (verify_local_cache-Kept g.reader f))) λ cached.
          bind (failed (list_named_files-Kept g))
            λ items. upload_listed-Ends cached.0 cached.1 items
