-- ===== src/State/Chunks/Whole.antt =====
-- The chunks of PlanBatches and PlanBatchesBounded (internal/state) are the discovered files, none
-- lost, none twice, in their order: the fuel of the loops is enough.
use baidu_drive_mover.Base.{
  ◌+◌, ℕ, zero, suc, ◌≤◌, ◌≡◌, refl, ap, ◌∙◌, List, [], ◌∷◌, ◌++◌, Bool-cases, inl, inr, arith,
  length, take, drop, length-drop, length-append, take-append-drop, All, flatten, flatten-append,
}
use baidu_drive_mover.Text.{Str, str_eq, str_eq→eq, str_eq_refl}
use baidu_drive_mover.State.Model.{File}
use baidu_drive_mover.State.Chunks.{
  is_chunk_full, add_int64, span_parent, chunks, extend_chunk, bounded_chunks, group_chunks,
}

pub span_parent-append :
    (parent : Str) (fs : List File) → (span_parent parent fs).0 ++ (span_parent parent fs).1 ≡ fs
unfolding span_parent
span_parent-append parent [] = refl
span_parent-append parent (f ∷ fs) = elim (Bool-cases (str_eq f.parent_path parent)) [
  | inl same ↦ rw same (ap (λ l. f ∷ l) (span_parent-append parent fs))
  | inr other ↦ rw other refl
]

pub span_parent-All :
    (parent : Str) (fs : List File) → All (λ f. f.parent_path ≡ parent) (span_parent parent fs).0
unfolding span_parent
span_parent-All parent [] = tt
span_parent-All parent (f ∷ fs) = elim (Bool-cases (str_eq f.parent_path parent)) [
  | inl same ↦ rw same (str_eq→eq f.parent_path parent same, span_parent-All parent fs)
  | inr other ↦ rw other tt
]

-- The group of the first file takes at least that file.
span_parent-shrinks :
    (f : File) (fs : List File) → length (span_parent f.parent_path (f ∷ fs)).1 ≤ length fs
unfolding span_parent
span_parent-shrinks f fs = rw (str_eq_refl f.parent_path) (
    omega (
      arith,
      length-append (span_parent f.parent_path fs).0 (span_parent f.parent_path fs).1,
      ap (λ l. length l) (span_parent-append f.parent_path fs),
    ))

pub chunks-flatten :
    (fuel max_files : ℕ) (fs : List File)
    → length fs ≤ fuel
    → 1 ≤ max_files
    → flatten (chunks fuel max_files fs) ≡ fs
unfolding chunks
chunks-flatten fuel max_files [] enough positive = refl
chunks-flatten zero max_files (f ∷ fs) enough positive = absurd (omega (arith, enough))
chunks-flatten (suc fuel) max_files (f ∷ fs) enough positive =
    ap (λ l. take max_files (f ∷ fs) ++ l)
      (chunks-flatten fuel max_files (drop max_files (f ∷ fs))
        (omega (arith, length-drop max_files (f ∷ fs), enough, positive)) positive)
    ∙ take-append-drop max_files (f ∷ fs)

extend_chunk-append :
    (max_files max_bytes count total : ℕ) (fs : List File)
    → let r = extend_chunk max_files max_bytes count total fs in r.0 ++ r.1 ≡ fs
unfolding extend_chunk
extend_chunk-append max_files max_bytes count total [] = refl
extend_chunk-append max_files max_bytes count total (f ∷ fs) =
    elim (Bool-cases (is_chunk_full max_files max_bytes count total f.size)) [
      | inl full ↦ rw full refl
      | inr room ↦ rw room (
          ap (λ l. f ∷ l)
            (extend_chunk-append max_files max_bytes (count + 1) (add_int64 total f.size) fs))
    ]

pub bounded_chunks-flatten :
    (fuel max_files max_bytes : ℕ) (fs : List File)
    → length fs ≤ fuel
    → flatten (bounded_chunks fuel max_files max_bytes fs) ≡ fs
unfolding bounded_chunks
bounded_chunks-flatten fuel max_files max_bytes [] enough = refl
bounded_chunks-flatten zero max_files max_bytes (f ∷ fs) enough = absurd (omega (arith, enough))
bounded_chunks-flatten (suc fuel) max_files max_bytes (f ∷ fs) enough =
    let r = extend_chunk max_files max_bytes 1 f.size fs in
    let whole = extend_chunk-append max_files max_bytes 1 f.size fs in
    ap (λ l. f ∷ (r.0 ++ l))
      (bounded_chunks-flatten fuel max_files max_bytes r.1
        (omega (arith, length-append r.0 r.1, ap (λ l. length l) whole, enough)))
    ∙ ap (λ l. f ∷ l) whole

pub group_chunks-flatten :
    (cut : List File → List (List File)) (fuel : ℕ) (fs : List File)
    → ((g : List File) → flatten (cut g) ≡ g)
    → length fs ≤ fuel
    → flatten (group_chunks cut fuel fs) ≡ fs
unfolding group_chunks
group_chunks-flatten cut fuel [] whole enough = refl
group_chunks-flatten cut zero (f ∷ fs) whole enough = absurd (omega (arith, enough))
group_chunks-flatten cut (suc fuel) (f ∷ fs) whole enough =
    let r = span_parent f.parent_path (f ∷ fs) in
    flatten-append (cut r.0) (group_chunks cut fuel r.1)
    ∙ ap (λ l. l ++ flatten (group_chunks cut fuel r.1)) (whole r.0)
    ∙ ap (λ l. r.0 ++ l)
        (group_chunks-flatten cut fuel r.1 whole (omega (arith, span_parent-shrinks f fs, enough)))
    ∙ span_parent-append f.parent_path (f ∷ fs)
