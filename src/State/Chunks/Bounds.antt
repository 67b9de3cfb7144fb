-- ===== src/State/Chunks/Bounds.antt =====
-- The limits that the chunks of PlanBatches and PlanBatchesBounded (internal/state) keep, and the
-- planners' loops as a whole.
use baidu_drive_mover.Base.{
  All-append_split, subst, sym, ◌∙◌, ltb, ltb→lt, Bool, not, ◌||◌, ◌%◌, ℕ, zero, suc, ◌+◌, ◌≤◌, ◌<◌,
  ◌≡◌, refl, ap, ◌⊎◌, inl, inr, List, [], ◌∷◌, Bool-cases, arith, length, drop, length-take, All,
  All-append, All-take-drop, flatten, true, false,
}
use baidu_drive_mover.Text.{Str}
use baidu_drive_mover.State.Model.{File}
use baidu_drive_mover.State.Download.{sum_sizes}
use baidu_drive_mover.State.Chunks.{
  two_63, two_64, add_int64, lt_int64, span_parent, chunks, is_chunk_full, extend_chunk,
  bounded_chunks, group_chunks, plan_chunks, plan_bounded_chunks,
}
use baidu_drive_mover.State.Chunks.Whole.{
  span_parent-append, span_parent-All, chunks-flatten, bounded_chunks-flatten, group_chunks-flatten,
}

-- A batch: at least one file, no more than the limit, all of one parent directory.
pub record IsChunk (max_files : ℕ) (c : List File) : Type 0 where
  pub nonempty : 1 ≤ length c
  pub within : length c ≤ max_files
  pub one_parent : (parent : Str) × All (λ (f : File). f.parent_path ≡ parent) c

-- The bytes of a batch keep the limit, unless it is a single file that is too large by itself.
abbrev pub IsWithinBytes : ℕ → List File → Type 0
IsWithinBytes max_bytes c = (sum_sizes c ≤ max_bytes) ⊎ (length c ≡ 1)

-- The files that the int64 sums of the planner can take: adding one to a total below the limit
-- does not wrap.
abbrev pub IsAddable : ℕ → File → Type 0
IsAddable max_bytes f = max_bytes + f.size < two_63

-- A group takes what holds of every file.
group_chunks-All :
    (P : List File → Type 0) (Q : File → Type 0) (cut : List File → List (List File)) (fuel : ℕ)
    (fs : List File)
    → All Q fs
    → ((parent : Str) (g : List File)
        → All (λ f. f.parent_path ≡ parent) g
        → All Q g
        → All P (cut g))
    → All P (group_chunks cut fuel fs)
unfolding group_chunks
group_chunks-All P Q cut fuel [] q each = tt
group_chunks-All P Q cut zero (f ∷ fs) q each = tt
group_chunks-All P Q cut (suc fuel) (f ∷ fs) q each =
    let r = span_parent f.parent_path (f ∷ fs) in
    let (a, b) =
      All-append_split Q r.0 r.1
        (subst (All Q) (sym (span_parent-append f.parent_path (f ∷ fs))) q) in
    All-append P (cut r.0) (group_chunks cut fuel r.1)
      (each f.parent_path r.0 (span_parent-All f.parent_path (f ∷ fs)) a)
      (group_chunks-All P Q cut fuel r.1 b each)

chunks-IsChunk :
    (fuel max_files : ℕ) (parent : Str) (fs : List File)
    → 1 ≤ max_files
    → All (λ f. f.parent_path ≡ parent) fs
    → All (IsChunk max_files) (chunks fuel max_files fs)
unfolding chunks
chunks-IsChunk fuel max_files parent [] positive same = tt
chunks-IsChunk zero max_files parent (f ∷ fs) positive same = tt
chunks-IsChunk (suc fuel) zero parent (f ∷ fs) positive same = absurd (omega (arith, positive))
chunks-IsChunk (suc fuel) (suc max) parent (f ∷ fs) positive same =
    let (mine, others) = All-take-drop (λ f. f.parent_path ≡ parent) (suc max) (f ∷ fs) same in
    (
      record {
        nonempty = omega arith;
        within = length-take (suc max) (f ∷ fs);
        one_parent = (parent, mine);
      },
      chunks-IsChunk fuel (suc max) parent (drop (suc max) (f ∷ fs)) positive others,
    )

anything : (files : List File) → All (λ _. Unit {0}) files
anything [] = tt
anything (f ∷ fs) = (tt, anything fs)

-- The chunks of PlanBatches, for a positive limit, are the discovered files in their order, none
-- lost and none twice; each chunk has between one file and the limit, all of one parent directory.
pub plan_chunks-IsChunk :
    (max_files : ℕ) (files : List File)
    → 1 ≤ max_files
    → (flatten (plan_chunks max_files files) ≡ files)
      × All (IsChunk max_files) (plan_chunks max_files files)
unfolding plan_chunks
plan_chunks-IsChunk max_files files positive = (
  group_chunks-flatten (λ g. chunks (length g) max_files g) (length files) files
      (λ g. chunks-flatten (length g) max_files g (omega arith) positive) (omega arith),
  group_chunks-All (IsChunk max_files) (λ _. Unit {0}) (λ g. chunks (length g) max_files g)
      (length files) files (anything files)
      (λ parent g same _. chunks-IsChunk (length g) max_files parent g positive same),
)

extend_chunk-All {κ} :
    (P : File → Type κ) (max_files max_bytes count total : ℕ) (fs : List File)
    → All P fs
    → let r = extend_chunk max_files max_bytes count total fs in All P r.0 × All P r.1
unfolding extend_chunk
extend_chunk-All P max_files max_bytes count total [] h = (tt, tt)
extend_chunk-All P max_files max_bytes count total (f ∷ fs) h =
    elim (Bool-cases (is_chunk_full max_files max_bytes count total f.size)) [
      | inl full ↦ rw full (tt, h)
      | inr room ↦
          let (a, b) =
            extend_chunk-All P max_files max_bytes (count + 1) (add_int64 total f.size) fs h.1 in
          rw room ((h.0, a), b)
    ]

-- On small values the signed comparison is that of the numbers.
lt_int64_small : (a b : ℕ) → a < two_63 → b < two_63 → lt_int64 a b ≡ ltb a b
unfolding lt_int64
lt_int64_small a b ha hb =
    let ea : (a + two_63) % two_64 ≡ a + two_63 = omega (arith, ha) in
    let eb : (b + two_63) % two_64 ≡ b + two_63 = omega (arith, hb) in rw (ea, eb) (ground arith)

add_int64_small : (a b : ℕ) → a + b < two_63 → add_int64 a b ≡ a + b
unfolding add_int64
add_int64_small a b h = omega (arith, h)

room_cases :
    (a b c : Bool) → (not a || (not b || c)) ≡ false → (a ≡ true) × (b ≡ true) × (c ≡ false)
room_cases a b c h = ground arith

-- Room for a file: one more file and its bytes keep the limits.
chunk_room :
    (max_files max_bytes count total size : ℕ)
    → total < two_63
    → max_bytes + size < two_63
    → is_chunk_full max_files max_bytes count total size ≡ false
    → (count < max_files) × (total + size ≤ max_bytes) × (add_int64 total size ≡ total + size)
unfolding is_chunk_full add_int64 lt_int64
chunk_room max_files max_bytes count total size small addable room =
    let (a, b, c) =
      room_cases (ltb count max_files) (lt_int64 total max_bytes)
        (lt_int64 max_bytes (add_int64 total size)) room in
    let below =
      ltb→lt total max_bytes
        (sym (lt_int64_small total max_bytes small (omega (arith, addable))) ∙ b) in
    let same = add_int64_small total size (omega (arith, below, addable)) in
    let fits : ltb max_bytes (total + size) ≡ false =
      sym (
        lt_int64_small max_bytes (total + size) (omega (arith, addable))
          (omega (arith, below, addable)))
      ∙ ap (λ t. lt_int64 max_bytes t) (sym same)
      ∙ c in
    (ltb→lt count max_files a, ground arith, same)

extend_chunk-within :
    (max_files max_bytes count total : ℕ) (fs : List File)
    → count ≤ max_files
    → total < two_63
    → All (IsAddable max_bytes) fs
    → let c = (extend_chunk max_files max_bytes count total fs).0 in
      (count + length c ≤ max_files)
      × ((total + sum_sizes c ≤ max_bytes) ⊎ ((length c ≡ 0) × (sum_sizes c ≡ 0)))
unfolding extend_chunk sum_sizes
extend_chunk-within max_files max_bytes count total [] counted small addable =
    (omega (arith, counted), inr (refl, refl))
extend_chunk-within max_files max_bytes count total (f ∷ fs) counted small addable =
    elim (Bool-cases (is_chunk_full max_files max_bytes count total f.size)) [
      | inl full ↦ rw full (omega (arith, counted), inr (refl, refl))
      | inr room ↦
          let (a, b, same) =
            chunk_room max_files max_bytes count total f.size small addable.0 room in
          let next =
            extend_chunk-within max_files max_bytes (count + 1) (add_int64 total f.size) fs
              (omega (arith, a)) (omega (arith, same, b, addable.0)) addable.1 in
          rw room (ground (arith, next, same))
    ]

-- The first file of a chunk with what extends it.
bounded_chunk-within :
    (max_files max_bytes : ℕ) (f : File) (fs : List File)
    → 1 ≤ max_files
    → All (IsAddable max_bytes) (f ∷ fs)
    → let c = f ∷ (extend_chunk max_files max_bytes 1 f.size fs).0 in
      (length c ≤ max_files) × IsWithinBytes max_bytes c
unfolding sum_sizes
bounded_chunk-within max_files max_bytes f fs positive addable =
    let (a, b) =
      extend_chunk-within max_files max_bytes 1 f.size fs positive (omega (arith, addable.0))
        addable.1 in
    (omega (arith, a), elim b [ inl fits ↦ inl fits | inr (alone, _) ↦ inr (omega (arith, alone)) ])

-- The limits of a bounded chunk.
abbrev pub IsBoundedChunk : ℕ → ℕ → List File → Type 0
IsBoundedChunk max_files max_bytes c = IsChunk max_files c × IsWithinBytes max_bytes c

bounded_chunks-IsBoundedChunk :
    (fuel max_files max_bytes : ℕ) (parent : Str) (fs : List File)
    → 1 ≤ max_files
    → All (IsAddable max_bytes) fs
    → All (λ f. f.parent_path ≡ parent) fs
    → All (IsBoundedChunk max_files max_bytes) (bounded_chunks fuel max_files max_bytes fs)
unfolding bounded_chunks
bounded_chunks-IsBoundedChunk fuel max_files max_bytes parent [] positive addable same = tt
bounded_chunks-IsBoundedChunk zero max_files max_bytes parent (f ∷ fs) positive addable same = tt
bounded_chunks-IsBoundedChunk (suc fuel) max_files max_bytes parent (f ∷ fs) positive addable same =
    let (within, bytes_within) = bounded_chunk-within max_files max_bytes f fs positive addable in
    let (mine, others) =
      extend_chunk-All (λ g. g.parent_path ≡ parent) max_files max_bytes 1 f.size fs same.1 in
    let (_, addable') =
      extend_chunk-All (IsAddable max_bytes) max_files max_bytes 1 f.size fs addable.1 in
    (
      (
        record { nonempty = omega arith; within = within; one_parent = (parent, (same.0, mine)) },
        bytes_within,
      ),
      bounded_chunks-IsBoundedChunk fuel max_files max_bytes parent
          (extend_chunk max_files max_bytes 1 f.size fs).1 positive addable' others,
    )

-- The chunks of PlanBatchesBounded, for a positive limit of files, where the byte limit plus the
-- size of any file stays below 2 ^ 63: they are the discovered files in their order, none lost and
-- none twice; each chunk has between one file and the limit, all of one parent directory, and
-- their bytes keep the byte limit unless the chunk is a single file.
pub plan_bounded_chunks-IsBoundedChunk :
    (max_files max_bytes : ℕ) (files : List File)
    → 1 ≤ max_files
    → All (IsAddable max_bytes) files
    → (flatten (plan_bounded_chunks max_files max_bytes files) ≡ files)
      × All (IsBoundedChunk max_files max_bytes) (plan_bounded_chunks max_files max_bytes files)
unfolding plan_bounded_chunks
plan_bounded_chunks-IsBoundedChunk max_files max_bytes files positive addable =
    let cut = λ (g : List File). bounded_chunks (length g) max_files max_bytes g in
    (
      group_chunks-flatten cut (length files) files
          (λ g. bounded_chunks-flatten (length g) max_files max_bytes g (omega arith))
          (omega arith),
      group_chunks-All (IsBoundedChunk max_files max_bytes) (IsAddable max_bytes) cut (length files)
          files addable
          (λ parent g same each.
            bounded_chunks-IsBoundedChunk (length g) max_files max_bytes parent g positive each
              same),
    )
