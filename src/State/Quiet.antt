-- ===== src/State/Quiet.antt =====
-- Statements and transactions of the store that allow no cleanup: the rows of files evolve, the
-- permissions stay, and the rows of batch_files keep naming files that exist.
pub mod Staging
pub mod Download
pub mod Tasks
pub mod Drive
pub mod Planning
pub mod Cleanup
use mathlib.Core.Path.{subst₂}
use baidu_drive_mover.Base.{
  Result-cases, ℕ, ◌≡◌, refl, sym, ◌∙◌, ap, subst, Bool, true, List, Option, some, arith,
  Bool-cases, inl, inr, Result, ok, first_where, update_where, exists_where, All, All-map, err,
  false, Option-cases, some-eq,
}
use baidu_drive_mover.Text.{Str}
use baidu_drive_mover.State.Model.{Task, Directory, File, StateError}
use baidu_drive_mover.State.Db.{
  Db, BatchRow, BatchFile, CleanupObject, Tx, in_tx, exec_one, ◌>>=◌, return, guard, get, expect,
  lift, find_file, is_file, is_object, update_files, update_tasks, update_directories,
  update_batches, update_objects, register_object, upsert_object, owned_object, ◌>>◌,
}
use baidu_drive_mover.State.Evolves.{
  Evolves, RowsEvolve, RowsEvolve-refl, RowsEvolve-trans, RowsEvolve-update, RowsEvolve-update_key,
}
use baidu_drive_mover.State.Grants.{grants, SameGrant, grants-update, grants-append}

abbrev pub HasFile : List File → BatchFile → Type 0
HasFile files l = (f : File) × (first_where (is_file l.task_id l.file_id) files ≡ some f)

-- The foreign key of batch_files to files.
abbrev pub IsLinked : Db → Type 0
IsLinked db = All (HasFile db.files) db.batch_files

pub record Quiet (db after : Db) : Type 0 where
  pub evolves : RowsEvolve db.files after.files
  pub grants_kept : grants after.owned_objects ≡ grants db.owned_objects
  pub links_kept : IsLinked db → IsLinked after

pub IsLinked-evolve :
    (xs ys : List File) (links : List BatchFile)
    → RowsEvolve xs ys
    → All (HasFile xs) links
    → All (HasFile ys) links
IsLinked-evolve xs ys links e =
    All-map (HasFile xs) (HasFile ys) links
      (λ l (f, found). let (g, found', _) = e.later l.task_id l.file_id f found in (g, found'))

pub Quiet-refl : (db : Db) → Quiet db db
Quiet-refl db = record {
  evolves = RowsEvolve-refl db.files;
  grants_kept = refl;
  links_kept = λ h. h;
}

pub Quiet-trans : {a b c : Db} → Quiet a b → Quiet b c → Quiet a c
Quiet-trans {a} {b} {c} q r = record {
  evolves = RowsEvolve-trans a.files b.files c.files q.evolves r.evolves;
  grants_kept = r.grants_kept ∙ q.grants_kept;
  links_kept = λ h. r.links_kept (q.links_kept h);
}

pub Quiet-eq : {db after : Db} → after ≡ db → Quiet db after
Quiet-eq {db} e = subst (Quiet db) (sym e) (Quiet-refl db)

-- Inversion of a successful bind.
pub >>=-eq-ok {ℓ κ} :
    {A : Type ℓ} {B : Type κ} (m : Tx A) (f : A → Tx B) (db : Db) {b : B} {after : Db}
    → (m >>= f) db ≡ ok (b, after)
    → (a : A) × (mid : Db) × (m db ≡ ok (a, mid)) × (f a mid ≡ ok (b, after))
unfolding ◌>>=◌
>>=-eq-ok m f db h = elim (Result-cases (m db)) [
  | inl (e, failed) ↦ cc (rw (failed, ◌>>=◌) at h)
  | inr ((a, mid), ran) ↦ (a, mid, ran, rw (ran, ◌>>=◌) at h)
]

-- A transaction that starts in a database.
pub record QuietAt {ℓ} {A : Type ℓ} (m : Tx A) (db : Db) : Type ℓ where
  pub holds : (a : A) (after : Db) → m db ≡ ok (a, after) → Quiet db after

module _ {ℓ κ} {A : Type ℓ} {B : Type κ} where
  pub bind-Quiet :
      (m : Tx A) (f : A → Tx B) (db : Db)
      → QuietAt m db
      → ((a : A) (mid : Db) → m db ≡ ok (a, mid) → QuietAt (f a) mid)
      → QuietAt (m >>= f) db
  bind-Quiet m f db first later = record {
    holds = λ b after h.
        let (a, mid, ran, ends) = >>=-eq-ok m f db h in
        Quiet-trans (first.holds a mid ran) ((later a mid ran).holds b after ends);
  }

pub then-Quiet {ℓ} :
    {B : Type ℓ} (m : Tx (Unit {0})) (k : Tx B) (db : Db)
    → QuietAt m db
    → ((mid : Db) → QuietAt k mid)
    → QuietAt (m >> k) db
then-Quiet m k db first later = bind-Quiet m (λ _. k) db first (λ a mid ran. later mid)

-- Statements that only read, or that end the transaction.
module _ (db : Db) where
  pub guard-Quiet : (test : Bool) (e : StateError) → QuietAt (guard test e) db
  unfolding guard
  guard-Quiet test e = record { holds = λ a after h. Quiet-eq (ground arith) }

  pub expect-Quiet {ℓ} : {A : Type ℓ} (o : Option A) (e : StateError) → QuietAt (expect o e) db
  unfolding expect
  expect-Quiet o e = record { holds = λ a after h. Quiet-eq (ground arith) }

  pub lift-Quiet {ℓ} : {A : Type ℓ} (r : Result StateError A) → QuietAt (lift r) db
  unfolding lift
  lift-Quiet r = record { holds = λ a after h. Quiet-eq (ground arith) }

  pub return-Quiet {ℓ} : {A : Type ℓ} (x : A) → QuietAt (return x) db
  unfolding return
  return-Quiet x = record { holds = λ a after h. Quiet-eq (ground arith) }

  pub get-Quiet : QuietAt get db
  unfolding get
  get-Quiet = record { holds = λ a after h. Quiet-eq (ground arith) }

-- What a read or a guard has found out is known to the rest of the transaction.
module _ {ℓ} {B : Type ℓ} (k : Tx B) (db : Db) where
  pub guard_knows-Quiet :
      (test : Bool) (e : StateError) → (test ≡ true → QuietAt k db) → QuietAt (guard test e >> k) db
  unfolding guard ◌>>=◌
  guard_knows-Quiet true e later = record { holds = λ b after h. (later refl).holds b after h }
  guard_knows-Quiet false e later = record { holds = λ b after h. cc }

  pub lift_then-Quiet : (r : Result StateError (Unit {0})) → QuietAt k db → QuietAt (lift r >> k) db
  unfolding lift ◌>>=◌
  lift_then-Quiet (ok _) later = record { holds = λ b after h. later.holds b after h }
  lift_then-Quiet (err e) later = record { holds = λ b after h. cc }

pub read_file-Quiet {ℓ} :
    {B : Type ℓ} (task id : Str) (e : StateError) (k : File → Tx B) (db : Db)
    → ((f : File) → find_file task id db ≡ some f → QuietAt (k f) db)
    → QuietAt (get >>= λ now. expect (find_file task id now) e >>= k) db
unfolding get expect ◌>>=◌
read_file-Quiet task id e k db later = record {
  holds = λ b after h. elim (Option-cases (find_file task id db)) [
    | inl missing ↦ cc (rw missing at h)
    | inr (f, found) ↦ (later f found).holds b after (rw found at h)
  ];
}

-- Statements that write.
pub Quiet-same :
    (db after : Db)
    → after.files ≡ db.files
    → after.owned_objects ≡ db.owned_objects
    → after.batch_files ≡ db.batch_files
    → Quiet db after
Quiet-same db after a b c = record {
  evolves = subst (RowsEvolve db.files) (sym a) (RowsEvolve-refl db.files);
  grants_kept = ap grants b;
  links_kept = λ h. subst₂ (λ files links. All (HasFile files) links) (sym a) (sym c) h;
}

Quiet-files :
    (db : Db) (files : List File)
    → RowsEvolve db.files files
    → Quiet db (record db { files = files })
Quiet-files db files e = record {
  evolves = e;
  grants_kept = refl;
  links_kept = IsLinked-evolve db.files files db.batch_files e;
}

Quiet-objects :
    (db : Db) (os : List CleanupObject)
    → grants os ≡ grants db.owned_objects
    → Quiet db (record db { owned_objects = os })
Quiet-objects db os e = record {
  evolves = RowsEvolve-refl db.files;
  grants_kept = e;
  links_kept = λ h. h;
}

Quiet-after : {db mid after : Db} → Quiet db mid → mid ≡ after → Quiet db after
Quiet-after {db} q e = subst (Quiet db) e q

module _ (db : Db) where
  pub update_files-Quiet_rows :
      (p : File → Bool) (f : File → File)
      → RowsEvolve db.files (update_where p f db.files)
      → QuietAt (update_files p f) db
  unfolding update_files
  update_files-Quiet_rows p f e = record {
    holds = λ a after h. Quiet-after (Quiet-files db _ e) cc;
  }

  pub update_files-Quiet :
      (p : File → Bool) (f : File → File)
      → ((x : File) → p x ≡ true → Evolves x (f x))
      → QuietAt (update_files p f) db
  update_files-Quiet p f each = update_files-Quiet_rows p f (RowsEvolve-update p f db.files each)

  -- An `UPDATE` by key, of which only the file read before need evolve.
  pub update_found-Quiet :
      (task id : Str) (r : File) (p : File → Bool) (f : File → File)
      → find_file task id db ≡ some r
      → ((x : File) → p x ≡ true → is_file task id x ≡ true)
      → ((x : File) → ((f x).task_id ≡ x.task_id) × ((f x).file_id ≡ x.file_id))
      → Evolves r (f r)
      → QuietAt (update_files p f) db
  unfolding find_file
  update_found-Quiet task id r p f found in_key same e = update_files-Quiet_rows p f (
      RowsEvolve-update_key task id p f db.files in_key same
        (λ y found' _. subst (λ y. Evolves y (f y)) (some-eq (sym found ∙ found')) e))

  pub update_tasks-Quiet : (p : Task → Bool) (f : Task → Task) → QuietAt (update_tasks p f) db
  unfolding update_tasks
  update_tasks-Quiet p f = record { holds = λ a after h. Quiet-same db after (cc) (cc) (cc) }

  pub update_directories-Quiet :
      (p : Directory → Bool) (f : Directory → Directory) → QuietAt (update_directories p f) db
  unfolding update_directories
  update_directories-Quiet p f = record { holds = λ a after h. Quiet-same db after (cc) (cc) (cc) }

  pub update_batches-Quiet :
      (p : BatchRow → Bool) (f : BatchRow → BatchRow) → QuietAt (update_batches p f) db
  unfolding update_batches
  update_batches-Quiet p f = record { holds = λ a after h. Quiet-same db after (cc) (cc) (cc) }

  pub update_objects-Quiet :
      (p : CleanupObject → Bool) (f : CleanupObject → CleanupObject)
      → ((o : CleanupObject) → SameGrant o (f o))
      → QuietAt (update_objects p f) db
  unfolding update_objects
  update_objects-Quiet p f same = record {
    holds = λ a after h.
        Quiet-after (Quiet-objects db _ (grants-update p f db.owned_objects same)) (cc);
  }

  pub register_object-Quiet :
      (task scope id object_path now : Str)
      → QuietAt (register_object task scope id object_path now) db
  unfolding register_object
  register_object-Quiet task scope id object_path now = record {
    holds = λ a after h.
        elim (Bool-cases (exists_where (is_object task scope id) db.owned_objects)) [
          | inl old ↦ Quiet-eq (ground arith)
          | inr free ↦
              Quiet-after
                (Quiet-objects db _ (
                  grants-append db.owned_objects (owned_object task scope id object_path now) refl))
                (ground arith)
        ];
  }

  pub upsert_object-Quiet :
      (task scope id object_path now : Str)
      → QuietAt (upsert_object task scope id object_path now) db
  unfolding upsert_object
  upsert_object-Quiet task scope id object_path now = record {
    holds = λ a after h.
        elim (Bool-cases (exists_where (is_object task scope id) db.owned_objects)) [
          | inl old ↦
              Quiet-after
                (Quiet-objects db _ (
                  grants-update (is_object task scope id)
                    (λ o. record o { object_path = object_path }) db.owned_objects
                    (λ o. (refl, refl, refl, refl))))
                (ground arith)
          | inr free ↦
              (register_object-Quiet task scope id object_path now).holds a after (rw free at h)
        ];
  }

-- The methods of the store.
pub in_tx-Quiet {ℓ} : {A : Type ℓ} (m : Tx A) (db : Db) → QuietAt m db → Quiet db (in_tx m db).0
unfolding in_tx
in_tx-Quiet m db q = elim (Result-cases (m db)) [
  | inl (e, failed) ↦ rw (failed, in_tx) (Quiet-refl db)
  | inr ((a, after), ran) ↦ rw (ran, in_tx) (q.holds a after ran)
]

pub exec_one-Quiet :
    (m : Tx ℕ) (e : StateError) (db : Db) → QuietAt m db → Quiet db (exec_one m e db).0
unfolding exec_one
exec_one-Quiet m e db q = elim (Result-cases (m db)) [
  | inl (e, failed) ↦ rw (failed, exec_one) (Quiet-refl db)
  | inr ((a, after), ran) ↦ rw (ran, exec_one) (q.holds a after ran)
]

pub ruleset quiet = (
  in_tx-Quiet, exec_one-Quiet, bind-Quiet, then-Quiet, guard-Quiet, expect-Quiet, lift-Quiet,
  return-Quiet, get-Quiet, update_tasks-Quiet, update_directories-Quiet, update_batches-Quiet,
  register_object-Quiet, upsert_object-Quiet,
)
