-- ===== src/Stager.antt =====
-- internal/staging/stager.go: Executor.Run, over the store's database, with the Baidu client as
-- functions that know the share. `W` is all that these act on, and `E` their errors.
pub mod Source
pub mod Parts
pub mod Careful
pub mod Transfers
pub mod Safe
pub mod Staged
mod Tests
use baidu_drive_mover.Base.{
  ℕ, zero, suc, ◌+◌, ◌-◌, ◌*◌, ◌/◌, ◌^◌, Bool, true, false, not, ◌&&◌, ◌||◌, List, [], ◌∷◌, ◌++◌,
  Option, none, some, Result, ok, err, if◌then◌else◌, ltb, leb, ◌==◌, length, take, drop, is_empty,
  exists_where, first_where, select,
}
use baidu_drive_mover.Base.Effects.{Effect, ◌>>=◌, ◌>>◌, return, raise, lift, handle, caught}
use baidu_drive_mover.Text.{Str, bytes, str_eq, contains_byte, equal_fold}
use baidu_drive_mover.Path.{join}
use baidu_drive_mover.World.{
  Context, World, Failure, Outside, Act, report, outside_call, store_call, query,
}
use baidu_drive_mover.Baidu.Remote.{RemoteFile}
use baidu_drive_mover.State.Model.{File, Batch}
use baidu_drive_mover.State.Db.{Db}
use baidu_drive_mover.State.Staging.{
  staging_batches, start_batch, record_staged_files, complete_batch, fail_batch,
}
use Source.{source_id}

-- The errors that the executor makes itself. `retry_exhausted` is the one behind the retry loop, and
-- `out_of_fuel` is no error of the code: it is how the model of its recursion would give up.
pub data Problem : Type 0 where
  no_files still_missing invalid_source_id nothing_appeared retry_exhausted : Problem
  single_conflict cannot_split invalid_name duplicate_name staging_conflict : Problem
  out_of_fuel : Problem

-- The fields of the executor. `transfer_limit` is the limit of a TransferLimitError in the chain of
-- the error, `ends_transfer` the test for one of the four errors that no retry helps against, and
-- `is_conflict` errors.Is(err, baidu.ErrTransferConflict).
pub record Executor (W E : Type 0) : Type 0 where
  pub outside : Outside W E
  pub ensure_staging_directory : Str → W → W × Result E (Unit {0})
  pub list_staging_directory : Str → W → W × Result E (List RemoteFile)
  pub transfer_files : List ℕ → Str → W → W × Result E (Unit {0})
  pub sleep : ℕ → W → W × Option E
  pub transfer_limit : E → Option ℕ  -- 0 where it is not positive
  pub ends_transfer : E → Bool
  pub is_conflict : E → Bool
  pub message : Failure E Problem → Str
  pub max_attempts : ℕ  -- 0 where it is not positive

-- The errors that are wrapped by `permanent`.
unfoldable pub is_permanent : {E : Type 0} → Failure E Problem → Bool
is_permanent (Failure.found Problem.no_files) = true
is_permanent (Failure.found Problem.invalid_source_id) = true
is_permanent (Failure.found Problem.single_conflict) = true
is_permanent (Failure.found Problem.cannot_split) = true
is_permanent (Failure.found Problem.invalid_name) = true
is_permanent (Failure.found Problem.duplicate_name) = true
is_permanent (Failure.found Problem.staging_conflict) = true
is_permanent _ = false

-- In nanoseconds.
unfoldable pub backoff : ℕ → ℕ
backoff attempt = let capped = if ltb 4 attempt then 4 else attempt in 500000000 * 2 ^ capped

unfoldable pub source_ids : List File → Result Problem (List ℕ)
source_ids [] = ok []
source_ids (f ∷ fs) =
    let rest = source_ids fs in
    elim (source_id f.file_id) [
      | none ↦ err Problem.invalid_source_id
      | some id ↦ elim rest [ ok ids ↦ ok (id ∷ ids) | err p ↦ err p ]
    ]

unfoldable pub intersect_missing : List File → List File → List File
intersect_missing current missing =
    select (λ f. exists_where (λ g. str_eq f.file_id g.file_id) missing) current

-- The loop that fills the map of the expected files, each under its name.
unfoldable pub check_names : List File → List File → Result Problem (Unit {0})
check_names seen [] = ok tt
check_names seen (f ∷ fs) =
    let rest = check_names (f ∷ seen) fs in
    if is_empty f.name || (contains_byte b'/' f.name || contains_byte b'\\' f.name)
    then err Problem.invalid_name
    else if exists_where (λ g. str_eq f.name g.name) seen
    then err Problem.duplicate_name
    else rest

-- `staged[id] = path`.
unfoldable pub put_staged : Str → Str → List (Str × Str) → List (Str × Str)
put_staged id path [] = (id, path) ∷ []
put_staged id path ((j, q) ∷ m) =
    if str_eq id j then (id, path) ∷ m else (j, q) ∷ put_staged id path m

-- An object of the listing agrees with the file of its name.
unfoldable pub agrees : File → RemoteFile → Bool
agrees f r =
    not r.is_dir
    && (elim r.size [ none ↦ false | some n ↦ n == f.size ]
        && (is_empty f.md5 || (is_empty r.md5 || equal_fold f.md5 r.md5)))

abbrev pub remote_path : Batch → RemoteFile → Str
remote_path b r = if is_empty r.path then join (b.baidu_staging_path ∷ r.name ∷ []) else r.path

-- The loop over the listing, with the objects seen so far and the map of what is staged.
unfoldable pub match_remote :
    Batch → List RemoteFile → List (Str × Str) → List RemoteFile → Result Problem (List (Str × Str))
match_remote b seen staged [] = ok staged
match_remote b seen staged (r ∷ rs) =
    if r.fs_id == 0
    then err Problem.staging_conflict
    else if exists_where (λ q. r.fs_id == q.fs_id) seen
    then err Problem.staging_conflict
    else if exists_where (λ q. str_eq r.name q.name) seen
    then err Problem.staging_conflict
    else elim (first_where (λ f. str_eq r.name f.name) b.files) [
      | none ↦ err Problem.staging_conflict
      | some f ↦ elim (agrees f r) [
        | false ↦ err Problem.staging_conflict
        | true ↦ match_remote b (r ∷ seen) (put_staged f.file_id (remote_path b r) staged) rs
      ]
    ]

-- What a listing says of the batch.
unfoldable pub staged_of : Batch → List RemoteFile → Result Problem (List (Str × Str))
staged_of b items = elim (check_names [] b.files) [
  | err p ↦ err p
  | ok _ ↦ match_remote b [] [] items
]

unfoldable pub missing_files : Batch → List (Str × Str) → List File
missing_files b staged =
    select (λ f. not (exists_where (λ (id, _). str_eq f.file_id id) staged)) b.files

unfoldable pub of_problem : {E A : Type 0} → Result Problem A → Result (Failure E Problem) A
of_problem (ok a) = ok a
of_problem (err p) = err (Failure.found p)

-- The pieces of a list, each of `size` files but the last.
unfoldable pub pieces : ℕ → ℕ → List File → List (List File)
pieces zero size files = []
pieces (suc fuel) size files =
    let rest = pieces fuel size (drop size files) in
    if is_empty files then [] else take size files ∷ rest

unfoldable pub chunk_size : ℕ → ℕ → ℕ
chunk_size limit count =
    let size = if limit == 0 || leb count limit then (count + 1) / 2 else limit in
    if size == 0 then 1 else size

module _ {W E : Type 0} (x : Executor W E) where
  unfoldable pub reconcile : Batch → Act W E Problem (List File)
  reconcile b = do
    items ← outside_call (x.list_staging_directory b.baidu_staging_path)
    staged ← lift (of_problem (staged_of b items))
    store_call x.outside Context.caller (record_staged_files b.task_id b.batch_id staged)
    return (missing_files b staged)

  unfoldable pub for_each :
      (List File → Act W E Problem (Unit {0})) → List (List File) → Act W E Problem (Unit {0})
  for_each f [] = return tt
  for_each f (c ∷ cs) = do f c; for_each f cs

  unfoldable pub transfer_split :
      (List File → Act W E Problem (Unit {0})) → List File → ℕ → Act W E Problem (Unit {0})
  transfer_split subset files limit =
      if leb (length files) 1
      then raise (Failure.found Problem.cannot_split)
      else for_each subset (pieces (length files) (chunk_size limit (length files)) files)

  -- The end of a turn of the retry loop that is no special case: progress starts over with the rest,
  -- the last attempt returns the error, and otherwise there is a pause before the next one.
  unfoldable pub go_on :
      (List File → Act W E Problem (Unit {0}))
      → Act W E Problem (Unit {0})
      → Bool
      → ℕ
      → List File
      → List File
      → Failure E Problem
      → Act W E Problem (Unit {0})
  go_on again retry last attempt current missing e =
      if ltb (length missing) (length current)
      then again missing
      else if last
      then raise e
      else (do report (x.sleep (backoff attempt)); retry)

  -- What the kinds of error of the transfer lead to.
  unfoldable pub after_error :
      (List File → ℕ → Act W E Problem (Unit {0}))
      → (Failure E Problem → Act W E Problem (Unit {0}))
      → List File
      → Failure E Problem
      → Act W E Problem (Unit {0})
  after_error split rest missing (Failure.outer e) = elim (x.transfer_limit e) [
    | some limit ↦ split missing limit
    | none ↦
        if x.ends_transfer e
        then raise (Failure.outer e)
        else if x.is_conflict e
        then (if length missing == 1
            then raise (Failure.found Problem.single_conflict)
            else split missing 0)
        else rest (Failure.outer e)
  ]
  after_error split rest missing e = rest e

  unfoldable pub after_transfer :
      (List File → ℕ → Act W E Problem (Unit {0}))
      → (Failure E Problem → Act W E Problem (Unit {0}))
      → List File
      → Option (Failure E Problem)
      → Act W E Problem (Unit {0})
  after_transfer split rest missing none =
      if is_empty missing then return tt else rest (Failure.found Problem.nothing_appeared)
  after_transfer split rest missing (some e) =
      if is_empty missing then return tt else after_error split rest missing e

  -- One turn of the retry loop.
  unfoldable pub attempt_transfer :
      (List File → Act W E Problem (Unit {0}))
      → Act W E Problem (Unit {0})
      → (List File → ℕ → Act W E Problem (Unit {0}))
      → Bool
      → ℕ
      → Batch
      → List File
      → Act W E Problem (Unit {0})
  attempt_transfer again retry split last attempt b current = do
    ids ← lift (of_problem (source_ids current))
    e ← caught (outside_call (x.transfer_files ids b.baidu_staging_path))
    missing_all ← reconcile b
    let missing = intersect_missing current missing_all
    after_transfer split (go_on again retry last attempt current missing) missing e

  abbrev pub attempt_limit : ℕ
  attempt_limit = if x.max_attempts == 0 then 3 else x.max_attempts

  unfoldable pub if_any :
      (List File → Act W E Problem (Unit {0})) → List File → Act W E Problem (Unit {0})
  if_any f [] = return tt
  if_any f (c ∷ cs) = f (c ∷ cs)

  -- The retry loop: fuel for the files, and the attempts that are left. Progress and a split go on
  -- with fewer files, and with all attempts.
  unfoldable pub transfer_loop : ℕ → ℕ → Batch → List File → Act W E Problem (Unit {0})
  transfer_loop n zero b current = raise (Failure.found Problem.retry_exhausted)
  transfer_loop zero (suc left) b current = raise (Failure.found Problem.out_of_fuel)
  transfer_loop (suc n) (suc left) b current =
      attempt_transfer (λ m. transfer_loop n attempt_limit b m)
        (λ s. transfer_loop (suc n) left b current s)
        (transfer_split (if_any (λ c. transfer_loop n attempt_limit b c))) (left == 0)
        (attempt_limit - suc left) b current

  unfoldable pub transfer_subset : Batch → List File → Act W E Problem (Unit {0})
  transfer_subset b files = if_any (transfer_loop (length files) attempt_limit b) files

  unfoldable pub stage_batch : Batch → Act W E Problem (Unit {0})
  stage_batch b = do
    if is_empty b.files then raise (Failure.found Problem.no_files) else return tt
    store_call x.outside Context.caller (start_batch b.task_id b.batch_id)
    outside_call (x.ensure_staging_directory b.baidu_staging_path)
    missing ← reconcile b
    transfer_subset b missing
    left ← reconcile b
    if is_empty left then return tt else raise (Failure.found Problem.still_missing)
    store_call x.outside Context.caller (complete_batch b.task_id b.batch_id)

  -- The failure is recorded under the background context; an error of that is returned instead.
  unfoldable pub record_failure : Batch → Failure E Problem → Act W E Problem (Unit {0})
  record_failure b e = do
    store_call x.outside Context.background
        (fail_batch b.task_id b.batch_id (x.message e) (is_permanent e))
    raise e

  unfoldable pub stage_batches : List Batch → Act W E Problem (Unit {0})
  stage_batches [] = return tt
  stage_batches (b ∷ bs) = do handle (stage_batch b) return (record_failure b); stage_batches bs

  unfoldable pub run_executor : Str → Act W E Problem (Unit {0})
  run_executor task = do
    batches ← query x.outside Context.caller (λ db. ok (staging_batches task db))
    stage_batches batches
