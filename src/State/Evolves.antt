-- ===== src/State/Evolves.antt =====
-- How the rows of files may change over time: a file keeps its identity, never falls back in the
-- pipeline, and keeps a Drive ID once it has one.
use baidu_drive_mover.Base.{
  ◌⊎◌, refl, ℕ, ◌≤◌, ◌≡◌, sym, ◌∙◌, Bool, true, false, List, [], ◌∷◌, ◌++◌, some, arith,
  if◌then◌else◌, is_empty, Bool-cases, some-eq, inl, inr, &&-both, ◌&&◌, first_where, update_where,
  subst,
}
use baidu_drive_mover.Text.{Str, str_eq, str_eq→eq, str_eq_iff}
use mathlib.Core.Path.{subst₂}
use baidu_drive_mover.State.Model.{File, FileStatus}
use baidu_drive_mover.State.Db.{is_file}
use baidu_drive_mover.State.Rows.{
  first_where-split, first_where_sound, is_file→keys, find-updated, is_file-same_key,
  first_where-append, find-update_other, find-update_same,
}

-- The place of a status in the pipeline. A file that failed for a retry waits to be staged.
abbrev pub rank : FileStatus → ℕ
rank FileStatus.discovered = 0
rank FileStatus.planned = 1
rank FileStatus.failed_retryable = 2
rank FileStatus.baidu_staging = 3
rank FileStatus.baidu_staged = 4
rank FileStatus.downloading = 5
rank FileStatus.local_ready = 6
rank FileStatus.drive_uploading = 7
rank FileStatus.drive_uploaded = 8
rank FileStatus.drive_verified = 9
rank FileStatus.cleanup_pending = 10
rank FileStatus.done = 11
rank FileStatus.failed_permanent = 12

-- Verified on Drive, or after that.
abbrev pub is_late : FileStatus → Bool
is_late FileStatus.drive_verified = true
is_late FileStatus.cleanup_pending = true
is_late FileStatus.done = true
is_late _ = false

pub record Evolves (f g : File) : Type 0 where
  pub same_task : g.task_id ≡ f.task_id
  pub same_id : g.file_id ≡ f.file_id
  pub same_path : g.logical_path ≡ f.logical_path
  pub same_parent : g.parent_path ≡ f.parent_path
  pub same_name : g.name ≡ f.name
  pub same_size : g.size ≡ f.size
  pub forward : rank f.status ≤ rank g.status
  pub drive_kept : is_empty f.drive_id ≡ false → g.drive_id ≡ f.drive_id
  pub backed : is_late g.status ≡ true → (is_late f.status ≡ true) ⊎ (is_empty g.drive_id ≡ false)

pub Evolves-refl : (f : File) → Evolves f f
Evolves-refl f = record {
  same_task = refl;
  same_id = refl;
  same_path = refl;
  same_parent = refl;
  same_name = refl;
  same_size = refl;
  forward = omega arith;
  drive_kept = λ _. refl;
  backed = λ late. inl late;
}

pub Evolves-trans : {f g h : File} → Evolves f g → Evolves g h → Evolves f h
Evolves-trans {f} {g} {h} a b = record {
  same_task = b.same_task ∙ a.same_task;
  same_id = b.same_id ∙ a.same_id;
  same_path = b.same_path ∙ a.same_path;
  same_parent = b.same_parent ∙ a.same_parent;
  same_name = b.same_name ∙ a.same_name;
  same_size = b.same_size ∙ a.same_size;
  forward = omega (arith, a.forward, b.forward);
  drive_kept = λ e.
      let kept = a.drive_kept e in
      b.drive_kept (subst (λ d. is_empty d ≡ false) (sym kept) e) ∙ kept;
  backed = λ late. elim (b.backed late) [
    | inr present ↦ inr present
    | inl late' ↦ elim (a.backed late') [
      | inl late'' ↦ inl late''
      | inr present ↦ inr (subst (λ d. is_empty d ≡ false) (sym (b.drive_kept present)) present)
    ]
  ];
}

-- What holds of every file that a query by key finds.
abbrev pub AllFound : (File → Type 0) → List File → Type 0
AllFound P xs = (task id : Str) (f : File) → first_where (is_file task id) xs ≡ some f → P f

-- A file that is verified on Drive, or further, has a Drive ID.
abbrev pub IsBacked : File → Type 0
IsBacked f = is_late f.status ≡ true → is_empty f.drive_id ≡ false

-- Every file that a query by key finds before is found after, evolved; and the files stay backed.
pub record RowsEvolve (xs ys : List File) : Type 0 where
  pub later :
      (task id : Str) (f : File)
      → first_where (is_file task id) xs ≡ some f
      → (g : File) × (first_where (is_file task id) ys ≡ some g) × Evolves f g
  pub backed : AllFound IsBacked xs → AllFound IsBacked ys

pub Evolves-IsBacked : (f g : File) → Evolves f g → IsBacked f → IsBacked g
Evolves-IsBacked f g e h late = elim (e.backed late) [
  | inr present ↦ present
  | inl before ↦
      let present = h before in subst (λ d. is_empty d ≡ false) (sym (e.drive_kept present)) present
]

pub RowsEvolve-refl : (xs : List File) → RowsEvolve xs xs
RowsEvolve-refl xs = record { later = λ task id f h. (f, h, Evolves-refl f); backed = λ h. h }

pub RowsEvolve-trans :
    (xs ys zs : List File) → RowsEvolve xs ys → RowsEvolve ys zs → RowsEvolve xs zs
RowsEvolve-trans xs ys zs a b = record {
  later = λ task id f h.
      let (g, found, e) = a.later task id f h in
      let (k, found', e') = b.later task id g found in (k, found', Evolves-trans e e');
  backed = λ h. b.backed (a.backed h);
}

append-IsBacked :
    (xs : List File) (f : File)
    → is_late f.status ≡ false
    → AllFound IsBacked xs
    → AllFound IsBacked (xs ++ f ∷ [])
append-IsBacked xs f early all task id g h = elim (first_where-split (is_file task id) xs f h) [
  | inl found ↦ all task id g found
  | inr same ↦ λ late. cc (subst (λ (x : File). is_late x.status ≡ false) same early)
]

-- A new row that is not verified yet.
pub RowsEvolve-append :
    (xs : List File) (f : File) → is_late f.status ≡ false → RowsEvolve xs (xs ++ f ∷ [])
RowsEvolve-append xs f early = record {
  later = λ task id g h. (g, first_where-append (is_file task id) xs (f ∷ []) h, Evolves-refl g);
  backed = append-IsBacked xs f early;
}

update-later :
    (p : File → Bool) (f : File → File) (xs : List File)
    → ((x : File) → p x ≡ true → Evolves x (f x))
    → (task id : Str) (r : File) → first_where (is_file task id) xs ≡ some r
    → (g : File) × (first_where (is_file task id) (update_where p f xs) ≡ some g) × Evolves r g
unfolding first_where update_where
update-later p f [] each task id r h = cc
update-later p f (x ∷ xs) each task id r h = elim (Bool-cases (is_file task id x)) [
  | inl hit ↦
      let same : x ≡ r = some-eq (rw hit at h) in
      elim (Bool-cases (p x)) [
        | inl touched ↦
            let e = each x touched in
            let hit' = is_file-same_key task id x (f x) e.same_task e.same_id ∙ hit in
            (f x, rw (touched, hit'), subst (λ y. Evolves y (f x)) same e)
        | inr kept ↦ (x, rw (kept, hit), subst (λ y. Evolves y x) same (Evolves-refl x))
      ]
  | inr miss ↦
      let (g, found, e) = update-later p f xs each task id r (rw miss at h) in
      elim (Bool-cases (p x)) [
        | inl touched ↦
            let k = each x touched in
            let miss' = is_file-same_key task id x (f x) k.same_task k.same_id ∙ miss in
            (g, rw (touched, miss') found, e)
        | inr kept ↦ (g, rw (kept, miss) found, e)
      ]
]

update-IsBacked :
    (p : File → Bool) (f : File → File) (xs : List File)
    → ((x : File) → p x ≡ true → Evolves x (f x))
    → AllFound IsBacked xs
    → AllFound IsBacked (update_where p f xs)
update-IsBacked p f xs each all task id g h =
    let (r, found, e) =
      find-updated task id p f xs
        (λ x touched. ((each x touched).same_task, (each x touched).same_id)) h in
    subst IsBacked (sym e) (elim (Bool-cases (p r)) [
      | inl touched ↦ rw touched (Evolves-IsBacked r (f r) (each r touched) (all task id r found))
      | inr kept ↦ rw kept (all task id r found)
    ])

-- An `UPDATE` whose every row evolves.
pub RowsEvolve-update :
    (p : File → Bool) (f : File → File) (xs : List File)
    → ((x : File) → p x ≡ true → Evolves x (f x))
    → RowsEvolve xs (update_where p f xs)
RowsEvolve-update p f xs each = record {
  later = update-later p f xs each;
  backed = update-IsBacked p f xs each;
}

update_key-later :
    (task id : Str) (p : File → Bool) (f : File → File) (xs : List File)
    → ((x : File) → p x ≡ true → is_file task id x ≡ true)
    → ((x : File) → ((f x).task_id ≡ x.task_id) × ((f x).file_id ≡ x.file_id))
    → ((r : File) → first_where (is_file task id) xs ≡ some r → p r ≡ true → Evolves r (f r))
    → (t i : Str) (r : File) → first_where (is_file t i) xs ≡ some r
    → (g : File) × (first_where (is_file t i) (update_where p f xs) ≡ some g) × Evolves r g
update_key-later task id p f xs in_key same each t i r h =
    elim (Bool-cases (str_eq task t && str_eq id i)) [
      | inr differ ↦ (
        r,
        find-update_other task id t i p f xs in_key same
              (λ a b. ground (arith, str_eq_iff task t, str_eq_iff id i))
            ∙ h,
        Evolves-refl r,
      )
      | inl equal ↦
          let (a, b) = &&-both _ _ equal in
          let a' = str_eq→eq task t a in
          let b' = str_eq→eq id i b in
          let h' : first_where (is_file task id) xs ≡ some r = cc in
          let found = find-update_same task id p f xs same h' in
          (
            if p r then f r else r,
            subst₂
                (λ t i.
                  first_where (is_file t i) (update_where p f xs) ≡ some (if p r then f r else r))
                a' b' found,
            elim (Bool-cases (p r)) [
              | inl touched ↦ rw touched (each r h' touched)
              | inr kept ↦ rw kept (Evolves-refl r)
            ],
          )
    ]

update_key-IsBacked :
    (task id : Str) (p : File → Bool) (f : File → File) (xs : List File)
    → ((x : File) → p x ≡ true → is_file task id x ≡ true)
    → ((x : File) → ((f x).task_id ≡ x.task_id) × ((f x).file_id ≡ x.file_id))
    → ((r : File) → first_where (is_file task id) xs ≡ some r → p r ≡ true → Evolves r (f r))
    → AllFound IsBacked xs
    → AllFound IsBacked (update_where p f xs)
update_key-IsBacked task id p f xs in_key same each all t i g h =
    let (r, found, e) = find-updated t i p f xs (λ x _. same x) h in
    subst IsBacked (sym e) (elim (Bool-cases (p r)) [
      | inr kept ↦ rw kept (all t i r found)
      | inl touched ↦
          let (a, b) = is_file→keys t i r (first_where_sound (is_file t i) xs found) in
          let (c, d) = is_file→keys task id r (in_key r touched) in
          let found' =
            subst₂ (λ t i. first_where (is_file t i) xs ≡ some r) (a ∙ sym c) (b ∙ sym d) found in
          rw touched (Evolves-IsBacked r (f r) (each r found' touched) (all t i r found))
    ])

-- An `UPDATE` of rows with one key, of which only the row that the key finds need evolve.
pub RowsEvolve-update_key :
    (task id : Str) (p : File → Bool) (f : File → File) (xs : List File)
    → ((x : File) → p x ≡ true → is_file task id x ≡ true)
    → ((x : File) → ((f x).task_id ≡ x.task_id) × ((f x).file_id ≡ x.file_id))
    → ((r : File) → first_where (is_file task id) xs ≡ some r → p r ≡ true → Evolves r (f r))
    → RowsEvolve xs (update_where p f xs)
RowsEvolve-update_key task id p f xs in_key same each = record {
  later = update_key-later task id p f xs in_key same each;
  backed = update_key-IsBacked task id p f xs in_key same each;
}
