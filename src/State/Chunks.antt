-- ===== src/State/Chunks.antt =====
-- The loops of PlanBatches (internal/state/staging_store.go) and PlanBatchesBounded
-- (staging_bounded.go) over the discovered files, without the statements that they run: groups of
-- one parent directory, cut into chunks. Byte totals are int64 values as 64-bit patterns.
pub mod Whole
pub mod Bounds
use baidu_drive_mover.Base.{
  ◌||◌, ℕ, zero, suc, ◌+◌, ◌%◌, Bool, not, List, [], ◌∷◌, ◌++◌, if◌then◌else◌, ltb, length, take,
  drop,
}
use baidu_drive_mover.Text.{Str, str_eq}
use baidu_drive_mover.State.Model.{File}

-- int64: addition wraps, and the order is that of the signed values.
abbrev pub two_63 : ℕ
two_63 = 9223372036854775808

abbrev pub two_64 : ℕ
two_64 = 18446744073709551616

unfoldable pub add_int64 : ℕ → ℕ → ℕ
add_int64 a b = (a + b) % two_64

unfoldable pub lt_int64 : ℕ → ℕ → Bool
lt_int64 a b = ltb ((a + two_63) % two_64) ((b + two_63) % two_64)

-- `discovered[start:end]`, the longest run of files with the parent, and what follows it.
unfoldable pub span_parent : Str → List File → List File × List File
span_parent parent [] = ([], [])
span_parent parent (f ∷ fs) =
    let (group, rest) = span_parent parent fs in
    if str_eq f.parent_path parent then (f ∷ group, rest) else ([], f ∷ fs)

-- `for chunkStart := 0; chunkStart < len(parentFiles); chunkStart += maxFiles`. Fuel: the number
-- of files.
unfoldable pub chunks : ℕ → ℕ → List File → List (List File)
chunks fuel max_files [] = []
chunks zero max_files (f ∷ fs) = []
chunks (suc fuel) max_files (f ∷ fs) =
    take max_files (f ∷ fs) ∷ chunks fuel max_files (drop max_files (f ∷ fs))

-- The tests of the bounded planner before it takes the next file of `size` bytes into a chunk of
-- `count` files and `total` bytes.
unfoldable pub is_chunk_full : ℕ → ℕ → ℕ → ℕ → ℕ → Bool
unfolding add_int64 lt_int64
is_chunk_full max_files max_bytes count total size =
    not (ltb count max_files)
    || (not (lt_int64 total max_bytes) || lt_int64 max_bytes (add_int64 total size))

-- The inner loop of the bounded planner from the second file of a chunk on: the rest of the chunk,
-- and what stays behind.
unfoldable pub extend_chunk : ℕ → ℕ → ℕ → ℕ → List File → List File × List File
extend_chunk max_files max_bytes count total [] = ([], [])
extend_chunk max_files max_bytes count total (f ∷ fs) =
    let (chunk, rest) = extend_chunk max_files max_bytes (count + 1) (add_int64 total f.size) fs in
    if is_chunk_full max_files max_bytes count total f.size then ([], f ∷ fs) else (f ∷ chunk, rest)

-- The first file is taken whatever its size, since `maxFiles` is positive.
unfoldable pub bounded_chunks : ℕ → ℕ → ℕ → List File → List (List File)
unfolding extend_chunk
bounded_chunks fuel max_files max_bytes [] = []
bounded_chunks zero max_files max_bytes (f ∷ fs) = []
bounded_chunks (suc fuel) max_files max_bytes (f ∷ fs) =
    let (chunk, rest) = extend_chunk max_files max_bytes 1 f.size fs in
    (f ∷ chunk) ∷ bounded_chunks fuel max_files max_bytes rest

-- The outer loop, for a way to cut one group. Fuel: the number of files.
unfoldable pub group_chunks : (List File → List (List File)) → ℕ → List File → List (List File)
unfolding span_parent
group_chunks cut fuel [] = []
group_chunks cut zero (f ∷ fs) = []
group_chunks cut (suc fuel) (f ∷ fs) =
    let (group, rest) = span_parent f.parent_path (f ∷ fs) in
    cut group ++ group_chunks cut fuel rest

-- The chunks of PlanBatches and of PlanBatchesBounded.
unfoldable pub plan_chunks : ℕ → List File → List (List File)
unfolding group_chunks chunks
plan_chunks max_files files = group_chunks (λ g. chunks (length g) max_files g) (length files) files

unfoldable pub plan_bounded_chunks : ℕ → ℕ → List File → List (List File)
unfolding group_chunks bounded_chunks
plan_bounded_chunks max_files max_bytes files =
    group_chunks (λ g. bounded_chunks (length g) max_files max_bytes g) (length files) files

-- `totalBytes` of a chunk, summed as an int64.
unfoldable pub total_bytes : ℕ → List File → ℕ
unfolding add_int64
total_bytes total [] = total
total_bytes total (f ∷ fs) = total_bytes (add_int64 total f.size) fs
