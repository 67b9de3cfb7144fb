-- ===== src/Drive/Guarded.antt =====
-- When the uploader of internal/drive/upload.go copies a file: only where its last listing has shown
-- that there is no object of the file's name.
use baidu_drive_mover.Base.{
  ◌≡◌, ◌∙◌, ok-eq, err≢ok, ℕ, true, List, [], ◌∷◌, some, Result, ok, err, is_empty, ap, subst,
}
use baidu_drive_mover.Base.Effects.{
  After, After-weaken, returned, raised, Triple, Keeps, bind, lift, return-Triple, expect-Triple,
  lift-Triple, require-Triple,
}
use baidu_drive_mover.Text.{Str, bytes}
use baidu_drive_mover.World.{
  At, World, Failure, IsIdle, Act, outside_call, outside_call-Keeps, outside_call-Ran,
}
use baidu_drive_mover.State.Model.{File}
use baidu_drive_mover.State.Drive.{is_upload_source, start_drive_upload}
use baidu_drive_mover.State.Db.{Db}
use baidu_drive_mover.Drive.Logical.{Reason, RemoteItem, remote_path}
use baidu_drive_mover.Drive.Checks
use baidu_drive_mover.Drive.Checks.{Uploader, Problem, permanently}
use baidu_drive_mover.Drive.Upload

-- A property of the outside, as one of the world.
abbrev pub Out : {W : Type 0} → (W → Type 0) → Db → W → Type 0
Out P _ w = P w

-- What the calls keep that read the cache, list a folder, or wait.
pub record IsReader {W E : Type 0} (u : Uploader W E) (P : Db → W → Type 0) : Type 0 where
  pub idle : IsIdle u.outside P
  pub resolved : (path : Str) (db : Db) (w : W) → P db w → P db (u.resolve_temp_relative path w).0
  pub opened : (path : Str) (db : Db) (w : W) → P db w → P db (u.open_temp_file path w).0
  pub measured : (h : ℕ) (db : Db) (w : W) → P db w → P db (u.stat_size h w).0
  pub loaded : (h : ℕ) (db : Db) (w : W) → P db w → P db (u.read_all h w).0
  pub closed : (h : ℕ) (db : Db) (w : W) → P db w → P db (u.close h w)
  pub delayed : (d : ℕ) (db : Db) (w : W) → P db w → P db (u.retry_delay d w).0
  pub listed :
      (root remote : Str) (db : Db) (w : W)
      → P db w
      → P db (u.run_task root (bytes "lsjson") (remote ∷ Checks.list_flags) w).0

-- `P` is what all calls keep, and `Clear` what a listing of the folder `root` without an object of the
-- name of `f` leaves behind. A copy is a step from the second to the first.
pub record IsGuarded {W E : Type 0} (u : Uploader W E) (root : Str) (f : File)
    (P Clear : Db → W → Type 0) : Type 0 where
  pub reader : IsReader u P
  pub idle_clear : IsIdle u.outside Clear
  pub started :
      (now : Str) (db : Db) (w : W)
      → Clear db w
      → Clear (start_drive_upload f.task_id f.file_id now db).0 w
  pub clear_kept : (db : Db) (w : W) → Clear db w → P db w
  pub cleared :
      (remote out : Str) (items : List RemoteItem) (db : Db) (w : W)
      → P db w
      → Checks.listed_path f.parent_path f.name ≡ ok remote
      → (u.run_task root (bytes "lsjson") (remote ∷ Checks.list_flags) w).1 ≡ ok out
      → u.parse_items out ≡ some items
      → Checks.named_files f.name items ≡ ok []
      → Clear db (u.run_task root (bytes "lsjson") (remote ∷ Checks.list_flags) w).0
  pub copied :
      (local destination : Str) (db : Db) (w : W)
      → Clear db w
      → is_empty f.drive_id ≡ true
      → is_upload_source f.status ≡ true
      → remote_path f.logical_path ≡ ok destination
      → P db (u.run_task root (bytes "copyto") (local ∷ destination ∷ Checks.copy_flags) w).0

pub of_reason-ok :
    {E A : Type 0} (r : Result Reason A) {a : A} → Checks.of_reason {E = E} r ≡ ok a → r ≡ ok a
unfolding Checks.of_reason
of_reason-ok (ok b) h = ap ok (ok-eq h)
of_reason-ok (err e) h = absurd (err≢ok h)

module _ {W E : Type 0} {u : Uploader W E} {P : Db → W → Type 0} (c : IsReader u P) where
  abbrev pub Kept : World W → Type 0
  Kept = At P

  mark_permanent-Kept :
      {A : Type 0} {r : World W × Result (Failure E Reason) A}
      → After (λ _. Kept) (λ _. Kept) r
      → After (λ _. Kept) (λ _. Kept) (Checks.mark_permanent r)
  unfolding Checks.mark_permanent
  mark_permanent-Kept (returned p) = returned p
  mark_permanent-Kept (raised p) = raised p

  close_after-Kept :
      {D A : Type 0} (h : ℕ) (m : Act W E D A)
      → Keeps Kept m
      → Keeps Kept (Upload.close_after u h m)
  unfolding Upload.close_after
  close_after-Kept {D = D} {A = A} h m keeps s p = close_at (m s) (keeps s p)
    where
      close_at :
          (r : World W × Result (Failure E D) A)
          → After (λ _. Kept) (λ _. Kept) r
          → After (λ _. Kept) (λ _. Kept) (record (r.0) { outside = u.close h r.0.outside }, r.1)
      close_at _ (returned {s = t} q) = returned (c.closed h t.db t.outside q)
      close_at _ (raised {s = t} q) = raised (c.closed h t.db t.outside q)

  pub lift-Kept : {D A : Type 0} (r : Result D A) → Keeps Kept (lift r)
  lift-Kept r = lift-Triple r (λ s a p h. p) (λ s e p. p)

  pub outside-Kept :
      {D A : Type 0} (f : W → W × Result E A)
      → ((db : Db) (w : W) → P db w → P db (f w).0)
      → Keeps Kept (outside_call {D = D} f)
  outside-Kept f kept = outside_call-Keeps P f (λ s p. kept s.db s.outside p)

  check_cache-Kept : (f : File) (h : ℕ) → Keeps Kept (Upload.check_cache u f h)
  unfolding Upload.check_cache
  check_cache-Kept f h = bind (outside-Kept (u.stat_size h) (c.measured h)) λ size.
      bind (require-Triple _ _ (λ s p _. p) (λ s p _. p)) λ _.
        bind (outside-Kept (u.read_all h) (c.loaded h)) λ content.
          bind (require-Triple _ _ (λ s p _. p) (λ s p _. p)) λ _. return-Triple _ (λ s p. p)

  pub verify_local_cache-Kept : (f : File) → Keeps Kept (Upload.verify_local_cache u f)
  unfolding Upload.verify_local_cache
  verify_local_cache-Kept f =
      bind (lift-Kept (Checks.of_check (Checks.check_metadata f))) λ relative.
        bind (outside-Kept (u.resolve_temp_relative relative) (c.resolved relative)) λ full.
          bind (outside-Kept (u.open_temp_file relative) (c.opened relative)) λ h.
            bind (close_after-Kept h (Upload.check_cache u f h) (check_cache-Kept f h))
              λ md5. return-Triple (full, md5) (λ s p. p)

  pub permanently-Kept :
      {A : Type 0} (m : Act W E Reason A) → Keeps Kept m → Keeps Kept (permanently m)
  permanently-Kept m keeps s p = mark_permanent-Kept (keeps s p)

  pub list-Kept : (root : Str) (f : File) → Keeps Kept (Upload.list_named_files u root f)
  unfolding Upload.list_named_files
  list-Kept root f =
      bind (lift-Kept (Checks.of_reason (Checks.listed_path f.parent_path f.name))) λ remote.
        bind
          (outside-Kept (u.run_task root (bytes "lsjson") (remote ∷ Checks.list_flags))
            (c.listed root remote))
          λ out.
            bind (expect-Triple (u.parse_items out) _ (λ s a p h. p) (λ s p. p))
              λ items. lift-Kept (Checks.of_reason (Checks.named_files f.name items))

module _ {W E : Type 0} {u : Uploader W E} {root : Str} {f : File} {P Clear : Db → W → Type 0}
    (g : IsGuarded u root f P Clear) where
  abbrev pub IsClear : World W → Type 0
  IsClear = At Clear

  -- The metadata of a listing: what is known behind its call.
  abbrev Listing : Str → Str → World W → Type 0
  Listing remote out t =
      (w : W) × P t.db w
      × (u.run_task root (bytes "lsjson") (remote ∷ Checks.list_flags) w ≡ (t.outside, ok out))

  -- Behind a listing.
  abbrev pub Listed : List RemoteItem → World W → Type 0
  Listed items s = (Kept g.reader) s × (items ≡ [] → IsClear s)

  Listing-Kept : (remote out : Str) (s : World W) → Listing remote out s → (Kept g.reader) s
  Listing-Kept remote out s (w, p, ran) =
      subst (P s.db) (ap (λ r. r.0) ran) (g.reader.listed root remote s.db w p)

  Listing-IsClear :
      (remote out : Str) (items : List RemoteItem) (s : World W)
      → Checks.listed_path f.parent_path f.name ≡ ok remote
      → Listing remote out s
      → u.parse_items out ≡ some items
      → Checks.named_files f.name items ≡ ok []
      → IsClear s
  Listing-IsClear remote out items s path (w, p, ran) parsed none_ =
      subst (Clear s.db) (ap (λ r. r.0) ran)
        (g.cleared remote out items s.db w p path (ap (λ r. r.1) ran) parsed none_)

  listing :
      (remote : Str)
      → Triple
          (λ s. (Kept g.reader) s × (Checks.listed_path f.parent_path f.name ≡ ok remote))
          (outside_call {D = Problem E}
            (u.run_task root (bytes "lsjson") (remote ∷ Checks.list_flags)))
          (λ out s. (Checks.listed_path f.parent_path f.name ≡ ok remote) × Listing remote out s)
          (λ _. (Kept g.reader))
  listing remote s p =
      After-weaken
        (outside_call-Ran P (u.run_task root (bytes "lsjson") (remote ∷ Checks.list_flags)) s p.0)
        (λ out t (w, q, ran). (p.1, (w, q, ran)))
        (λ e t (w, q, ran). subst (P t.db) ran (g.reader.listed root remote t.db w q))

  pub list_named_files-Kept :
      Triple (Kept g.reader) (Upload.list_named_files u root f) Listed (λ _. Kept g.reader)
  unfolding Upload.list_named_files
  list_named_files-Kept =
      bind
        (lift-Triple
          {Q = λ remote s.
            (Kept g.reader) s × (Checks.listed_path f.parent_path f.name ≡ ok remote)}
          (Checks.of_reason (Checks.listed_path f.parent_path f.name))
          (λ s a p h. (p, of_reason-ok _ h)) (λ s e p. p))
        λ remote. bind (listing remote) λ out.
          bind
            {Q = λ items s.
              (Checks.listed_path f.parent_path f.name ≡ ok remote)
              × Listing remote out s
              × (u.parse_items out ≡ some items)}
            (expect-Triple (u.parse_items out) _ (λ s items l e. (l.0, l.1, e))
              (λ s l. Listing-Kept remote out s l.1))
            λ items.
              lift-Triple (Checks.of_reason (Checks.named_files f.name items))
                (λ s matches l h. (
                  Listing-Kept remote out s l.1,
                  λ none_.
                      Listing-IsClear remote out items s l.0 l.1 l.2
                        (of_reason-ok _ h ∙ ap ok none_),
                ))
                (λ s e l. Listing-Kept remote out s l.1)
