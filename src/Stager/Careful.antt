-- ===== src/Stager/Careful.antt =====
-- What the calls of the executor of internal/staging keep, as long as it transfers only files of the
-- batch into the batch's own directory; and which of its errors it returns.
use baidu_drive_mover.Base.{
  ◌≡◌, refl, sym, subst, ℕ, Bool, true, false, inl, inr, List, [], ◌∷◌, some, Result, ok, err,
  err≢ok, All, is_empty, first_where, arith, Result-cases, Option-cases, some-eq,
}
use baidu_drive_mover.Base.Effects.{
  Effect, After, returned, raised, After-weaken, Triple, Keeps, lift, caught, caught_at, After-both,
}
use baidu_drive_mover.World.Foreign.{Foreign, IsForeign}
use baidu_drive_mover.Text.{Str, str_eq}
use baidu_drive_mover.World.{At, World, Failure, IsIdle}
use baidu_drive_mover.State.Model.{File, Batch}
use baidu_drive_mover.State.Db.{Db}
use baidu_drive_mover.State.History.{Call, perform}
use baidu_drive_mover.Baidu.Remote.{RemoteFile}
use baidu_drive_mover.Stager
use baidu_drive_mover.Stager.{Executor, Problem}
use baidu_drive_mover.Stager.Parts.{OneOf}
use baidu_drive_mover.Stager.Source.{source_id}

-- The errors that are returned: not the one behind the retry loop, and not the model's own.
abbrev pub is_real : Problem → Bool
is_real Problem.retry_exhausted = false
is_real Problem.out_of_fuel = false
is_real _ = true

abbrev pub IsReal : Problem → Type 0
IsReal p = is_real p ≡ true

abbrev pub IsReported : {E : Type 0} → Failure E Problem → Type 0
IsReported (Failure.found p) = IsReal p
IsReported _ = Unit {0}

-- A property that the calls for one batch keep.
pub record IsCareful {W E : Type 0} (x : Executor W E) (sha256_hex : Str → Str) (b : Batch)
    (P : Db → W → Type 0) : Type 0 where
  pub idle : IsIdle x.outside P
  pub slept : (d : ℕ) (db : Db) (w : W) → P db w → P db (x.sleep d w).0
  pub stored : (c : Call) (db : Db) (w : W) → P db w → P (perform sha256_hex c db) w
  pub ensured :
      (db : Db) (w : W) → P db w → P db (x.ensure_staging_directory b.baidu_staging_path w).0
  pub listed : (db : Db) (w : W) → P db w → P db (x.list_staging_directory b.baidu_staging_path w).0
  pub transferred :
      (fs : List File) (ids : List ℕ) (db : Db) (w : W)
      → Stager.source_ids fs ≡ ok ids
      → All (λ f. OneOf f b.files) fs
      → is_empty fs ≡ false
      → P db w
      → P db (x.transfer_files ids b.baidu_staging_path w).0

-- What is left behind by a call that fails.
abbrev pub Failed : {W E : Type 0} → (Db → W → Type 0) → Failure E Problem → World W → Type 0
Failed P e s = At P s × IsReported e

-- A call that keeps `P` and returns only errors that are real.
abbrev pub Careful :
    {W E A : Type 0} → (Db → W → Type 0) → Effect (World W) (Failure E Problem) A → Type 0
Careful P m = Triple (At P) m (λ _. At P) (Failed P)

pub source_ids-IsReal : (fs : List File) (p : Problem) → Stager.source_ids fs ≡ err p → IsReal p
unfolding Stager.source_ids
source_ids-IsReal [] p h = absurd (err≢ok (sym h))
source_ids-IsReal (f ∷ fs) p h = elim (Option-cases (source_id f.file_id)) [
  | inl none_ ↦ ground (arith, source_ids-IsReal fs p)
  | inr (id, found) ↦ ground (arith, source_ids-IsReal fs p)
]

match_remote-IsReal :
    (b : Batch) (seen : List RemoteFile) (staged : List (Str × Str)) (items : List RemoteFile)
    (p : Problem)
    → Stager.match_remote b seen staged items ≡ err p
    → IsReal p
unfolding Stager.match_remote
match_remote-IsReal b seen staged [] p h = absurd (err≢ok (sym h))
match_remote-IsReal b seen staged (r ∷ rs) p h =
    elim (Option-cases (first_where (λ f. str_eq r.name f.name) b.files)) [
      | inl none_ ↦ ground arith
      | inr (f, found) ↦ ground (
        arith,
        match_remote-IsReal b (r ∷ seen)
            (Stager.put_staged f.file_id (Stager.remote_path b r) staged) rs p,
      )
    ]

check_names-IsReal :
    (seen fs : List File) (p : Problem) → Stager.check_names seen fs ≡ err p → IsReal p
unfolding Stager.check_names
check_names-IsReal seen [] p h = absurd (err≢ok (sym h))
check_names-IsReal seen (f ∷ fs) p h = ground (arith, check_names-IsReal (f ∷ seen) fs p)

pub staged_of-IsReal :
    (b : Batch) (items : List RemoteFile) (p : Problem)
    → Stager.staged_of b items ≡ err p
    → IsReal p
unfolding Stager.staged_of
staged_of-IsReal b items p h = elim (Result-cases (Stager.check_names [] b.files)) [
  | inl (q, wrong) ↦ ground (arith, check_names-IsReal [] b.files q wrong)
  | inr (_, right) ↦ match_remote-IsReal b [] [] items p (rw (right, Stager.staged_of) at h)
]

module _ {W E : Type 0} (P : Db → W → Type 0) where
  pub problem-Careful :
      {A : Type 0} (r : Result Problem A)
      → ((p : Problem) → r ≡ err p → IsReal p)
      → Triple
          (At P)
          (lift {E = Failure E Problem} (Stager.of_problem r))
          (λ a s. At P s × (r ≡ ok a))
          (Failed P)
  unfolding Stager.of_problem lift
  problem-Careful (ok a) real s p = returned (p, refl)
  problem-Careful (err q) real s p = raised (p, real q refl)

  pub foreign : (e : Failure E Problem) → IsForeign e → IsReported e
  foreign (Failure.refused e) f = tt
  foreign (Failure.outer e) f = tt
  foreign (Failure.found p) f = absurd f

  -- A call that keeps `P` and returns no error of the executor's own.
  pub Foreign-Careful :
      {A : Type 0} {Q : A → World W → Type 0} (m : Effect (World W) (Failure E Problem) A)
      → Triple (At P) m Q (λ _. At P)
      → Foreign m
      → Triple (At P) m Q (Failed P)
  Foreign-Careful m keeps f s p =
      After-weaken (After-both (keeps s p) (f s tt)) (λ a s q. q.0) (λ e s r. (r.0, foreign e r.1))

  caught_at-Careful :
      {A : Type 0} {r : World W × Result (Failure E Problem) A}
      → After (λ _. At P) (Failed P) r
      → After
          (λ o s. At P s × ((e : Failure E Problem) → o ≡ some e → IsReported e))
          (Failed P)
          (caught_at r)
  unfolding caught_at
  caught_at-Careful (returned p) = returned (p, λ e h. cc)
  caught_at-Careful (raised {e = x} p) = returned (p.0, λ e h. subst IsReported (some-eq h) p.1)

  pub caught-Careful :
      {A : Type 0} (m : Effect (World W) (Failure E Problem) A)
      → Keeps (At P) m
      → Foreign m
      → Triple
          (At P)
          (caught m)
          (λ o s. At P s × ((e : Failure E Problem) → o ≡ some e → IsReported e))
          (Failed P)
  unfolding caught
  caught-Careful m keeps f s p = caught_at-Careful (Foreign-Careful m keeps f s p)
