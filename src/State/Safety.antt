-- ===== src/State/Safety.antt =====
-- The safety invariant of the cleanup: which owned objects may have their cleanup allowed.
pub mod Gate
pub mod Authorize
pub mod Root
use baidu_drive_mover.Base.{
  ℕ, ◌≤◌, ◌≡◌, refl, sym, subst, ◌∙◌, false, some, List, [], arith, All, All-map, is_empty,
  first_where,
}
use baidu_drive_mover.Text.{Str}
use baidu_drive_mover.State.Model.{File}
use baidu_drive_mover.State.Db.{Db, is_file, find_file, scope_local_cache_file, empty_db}
use baidu_drive_mover.State.Evolves.{rank, Evolves, RowsEvolve, RowsEvolve-refl, RowsEvolve-trans}
use baidu_drive_mover.State.Grants.{grants}
use baidu_drive_mover.State.Quiet.{Quiet, IsLinked}

-- A file that has a Drive ID and stands behind DRIVE_VERIFIED in the order of the statuses: pending
-- cleanup, done, or failed for good.
pub record IsReleased (f : File) : Type 0 where
  pub past_verification : 10 ≤ rank f.status
  pub on_drive : is_empty f.drive_id ≡ false

-- A local cache object that may be deleted belongs to a released file, and `V` holds of its key.
abbrev pub GrantIsSafe : (Str → Str → Type 0) → Db → Str × Str × Str → Type 0
GrantIsSafe V db (task, scope, id) =
    scope ≡ scope_local_cache_file
    → V task id × ((f : File) × (first_where (is_file task id) db.files ≡ some f) × IsReleased f)

pub record IsSafe (V : Str → Str → Type 0) (db : Db) : Type 0 where
  pub linked : IsLinked db
  pub granted : All (GrantIsSafe V db) (grants db.owned_objects)

pub Evolves-IsReleased : {f g : File} → Evolves f g → IsReleased f → IsReleased g
Evolves-IsReleased {f} {g} e r =
    let kept = e.drive_kept r.on_drive in
    record {
      past_verification = omega (arith, e.forward, r.past_verification);
      on_drive = subst (λ d. is_empty d ≡ false) (sym kept) r.on_drive;
    }

pub empty_db-IsSafe : (V : Str → Str → Type 0) → IsSafe V empty_db
unfolding grants
empty_db-IsSafe V = record { linked = tt; granted = tt }

-- A grant stays safe while the files evolve.
pub GrantIsSafe-evolve :
    (V V' : Str → Str → Type 0) (db after : Db)
    → ((task id : Str) → V task id → V' task id)
    → RowsEvolve db.files after.files
    → (key : Str × Str × Str) → GrantIsSafe V db key
    → GrantIsSafe V' after key
GrantIsSafe-evolve V V' db after wider evolves (task, scope, id) safe local =
    let (v, (f, found, r)) = safe local in
    let (g, found', e) = evolves.later task id f found in
    (wider task id v, (g, found', Evolves-IsReleased e r))

pub IsSafe-wider :
    (V V' : Str → Str → Type 0) (db : Db)
    → ((task id : Str) → V task id → V' task id)
    → IsSafe V db
    → IsSafe V' db
IsSafe-wider V V' db wider s = record {
  linked = s.linked;
  granted =
      All-map (GrantIsSafe V db) (GrantIsSafe V' db) (grants db.owned_objects)
        (GrantIsSafe-evolve V V' db db wider (RowsEvolve-refl db.files)) s.granted;
}

-- A change that allows no cleanup keeps the invariant.
pub Quiet-IsSafe :
    {db after : Db} → Quiet db after → (V : Str → Str → Type 0) → IsSafe V db → IsSafe V after
Quiet-IsSafe {db} {after} q V s = record {
  linked = q.links_kept s.linked;
  granted = subst (All (GrantIsSafe V after)) (sym q.grants_kept) (
      All-map (GrantIsSafe V db) (GrantIsSafe V after) (grants db.owned_objects)
        (GrantIsSafe-evolve V V db after (λ _ _ v. v) q.evolves) s.granted);
}

-- What every operation of the store but AuthorizeBatchCleanup does: the files evolve, and the
-- invariant is kept.
pub record Change (db after : Db) : Type 1 where
  pub evolves : RowsEvolve db.files after.files
  pub safe : (V : Str → Str → Type 0) → IsSafe V db → IsSafe V after

pub Change-refl : (db : Db) → Change db db
Change-refl db = record { evolves = RowsEvolve-refl db.files; safe = λ V s. s }

pub Quiet-Change : {db after : Db} → Quiet db after → Change db after
Quiet-Change q = record { evolves = q.evolves; safe = Quiet-IsSafe q }
