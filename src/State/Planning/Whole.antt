-- ===== src/State/Planning/Whole.antt =====
-- What PlanBatches and PlanBatchesBounded (internal/state) return: the batches hold the discovered
-- files of the task.
use baidu_drive_mover.Base.{
  ℕ, ◌≤◌, ◌<◌, ◌≡◌, refl, sym, ap, ◌∙◌, subst, &&-both, List, [], ◌∷◌, ◌++◌, ok, Bool-cases, inl,
  inr, arith, ltb→lt, ◌==◌, length, All, All-append, flatten, flatten-append,
}
use baidu_drive_mover.Text.{Str}
use baidu_drive_mover.State.Model.{File, FileStatus, Batch, BatchStatus}
use baidu_drive_mover.State.Db.{Db}
use baidu_drive_mover.State.Invert.{in_tx-ok, get_then, guard_then, return_lem}
use baidu_drive_mover.State.Quiet.{>>=-eq-ok}
use baidu_drive_mover.State.Chunks.Whole.{group_chunks-flatten, bounded_chunks-flatten}
use baidu_drive_mover.State.Chunks.{bounded_chunks, plan_chunks, plan_bounded_chunks}
use baidu_drive_mover.State.Chunks.Bounds.{plan_chunks-IsChunk}
use baidu_drive_mover.State.Planning.{
  discovered_files, set_planned, plan_chunk, plan_all, plan_discovered, plan_with, plan_batches,
  plan_batches_bounded,
}

abbrev pub files_of : List Batch → List (List File)
files_of [] = []
files_of (b ∷ bs) = b.files ∷ files_of bs

files_of-append : (xs ys : List Batch) → files_of (xs ++ ys) ≡ files_of xs ++ files_of ys
files_of-append [] ys = refl
files_of-append (x ∷ xs) ys = ap (λ l. x.files ∷ l) (files_of-append xs ys)

set_planned-append : (xs ys : List File) → set_planned (xs ++ ys) ≡ set_planned xs ++ set_planned ys
unfolding set_planned
set_planned-append [] ys = refl
set_planned-append (x ∷ xs) ys =
    ap (λ l. record x { status = FileStatus.planned } ∷ l) (set_planned-append xs ys)

-- A batch that is returned counts its files.
abbrev pub IsCounted : Batch → Type 0
IsCounted b = (b.file_count ≡ length b.files) × (b.status ≡ BatchStatus.pending)

set_planned-length : (fs : List File) → length (set_planned fs) ≡ length fs
unfolding set_planned
set_planned-length [] = refl
set_planned-length (f ∷ fs) = omega (arith, set_planned-length fs)

append_nil {ℓ} : {A : Type ℓ} (xs : List A) → xs ++ [] ≡ xs
append_nil [] = refl
append_nil (x ∷ xs) = ap (λ l. x ∷ l) (append_nil xs)

-- The batches hold the files of the list, planned, and count them.
abbrev pub Holds : List File → List Batch → Type 0
Holds files bs = (flatten (files_of bs) ≡ set_planned files) × All IsCounted bs

Holds-append :
    (xs ys : List File) (cs bs : List Batch)
    → Holds xs cs
    → Holds ys bs
    → Holds (xs ++ ys) (cs ++ bs)
Holds-append xs ys cs bs a b = (
  ap flatten (files_of-append cs bs)
      ∙ flatten-append (files_of cs) (files_of bs)
      ∙ ap (λ l. l ++ flatten (files_of bs)) a.0
      ∙ ap (λ l. set_planned xs ++ l) b.0
      ∙ sym (set_planned-append xs ys),
  All-append IsCounted cs bs a.1 b.1,
)

module _ (sha256_hex : Str → Str) (task now : Str) where
  plan_chunk_lem :
      (c : List File) (db after : Db) (bs : List Batch)
      → plan_chunk sha256_hex task now c db ≡ ok (bs, after)
      → Holds c bs
  unfolding plan_chunk set_planned
  plan_chunk_lem [] db after bs h =
      let (same, _) = return_lem _ h in subst (Holds []) (sym same) (refl, tt)
  plan_chunk_lem (f ∷ fs) db after bs h =
      let (_, db1, _, h1) = >>=-eq-ok _ _ db h in
      let (_, db2, _, h2) = >>=-eq-ok _ _ db1 h1 in
      let (_, db3, _, h3) = >>=-eq-ok _ _ db2 h2 in
      let (same, _) = return_lem _ h3 in
      subst (Holds (f ∷ fs)) (sym same)
        (append_nil (set_planned (f ∷ fs)), ((sym (set_planned-length (f ∷ fs)), refl), tt))

  plan_all_lem :
      (cs : List (List File)) (db after : Db) (bs : List Batch)
      → plan_all sha256_hex task now cs db ≡ ok (bs, after)
      → Holds (flatten cs) bs
  unfolding plan_all set_planned
  plan_all_lem [] db after bs h =
      let (same, _) = return_lem _ h in subst (Holds []) (sym same) (refl, tt)
  plan_all_lem (c ∷ cs) db after bs h =
      let (b, db1, first, h1) = >>=-eq-ok (plan_chunk sha256_hex task now c) _ db h in
      let (bs', db2, others, h2) = >>=-eq-ok (plan_all sha256_hex task now cs) _ db1 h1 in
      let (same, _) = return_lem _ h2 in
      subst (Holds (c ++ flatten cs)) (sym same) (
        Holds-append c (flatten cs) b bs' (plan_chunk_lem c db db1 b first)
          (plan_all_lem cs db1 db2 bs' others))

  plan_discovered_lem :
      (cut : List File → List (List File)) (files : List File) (db after : Db) (bs : List Batch)
      → flatten (cut files) ≡ files
      → plan_discovered sha256_hex task now cut files db ≡ ok (bs, after)
      → Holds files bs
  unfolding plan_discovered set_planned
  plan_discovered_lem cut [] db after bs whole h =
      let (same, _) = return_lem _ h in subst (Holds []) (sym same) (refl, tt)
  plan_discovered_lem cut (f ∷ fs) db after bs whole h =
      let (_, db1, _, h1) = >>=-eq-ok _ _ db h in
      subst (λ l. Holds l bs) whole (plan_all_lem (cut (f ∷ fs)) db1 after bs h1)

  plan_with_lem :
      (cut : List File → List (List File)) (max_files : ℕ) (db : Db) (bs : List Batch)
      → (1 ≤ max_files → flatten (cut (discovered_files task db)) ≡ discovered_files task db)
      → (plan_with sha256_hex task now cut max_files db).1 ≡ ok bs
      → (1 ≤ max_files) × (max_files < 500) × Holds (discovered_files task db) bs
  unfolding plan_with
  plan_with_lem cut max_files db bs whole h =
      let (after, ran, _) = in_tx-ok _ db h in
      let (limits, h1) = guard_then _ _ _ ran in
      let (_, h2) = guard_then _ _ _ h1 in
      let h3 = get_then _ h2 in
      let (low, high) = &&-both _ _ limits in
      let positive = ltb→lt 0 max_files low in
      (
        positive,
        ltb→lt max_files 500 high,
        plan_discovered_lem cut (discovered_files task db) db after bs (whole positive) h3,
      )

  plan_batches_lem :
      (max_files : ℕ) (db : Db) (bs : List Batch)
      → (plan_batches sha256_hex task now max_files db).1 ≡ ok bs
      → (1 ≤ max_files) × (max_files < 500) × Holds (discovered_files task db) bs
  unfolding plan_batches
  plan_batches_lem max_files db bs h =
      plan_with_lem (plan_chunks max_files) max_files db bs
        (λ positive. (plan_chunks-IsChunk max_files (discovered_files task db) positive).0) h

  -- If PlanBatchesBounded succeeds, with a byte limit or without one, then its limit of files is
  -- from 1 to 499, and the batches that it returns hold the discovered files of the task, by parent
  -- and path, each of them once and planned; each batch is pending and counts its files.
  pub plan_batches_bounded_lem :
      (max_files max_bytes : ℕ) (db : Db) (bs : List Batch)
      → (plan_batches_bounded sha256_hex task now max_files max_bytes db).1 ≡ ok bs
      → (1 ≤ max_files) × (max_files < 500) × Holds (discovered_files task db) bs
  unfolding plan_batches_bounded plan_bounded_chunks
  plan_batches_bounded_lem max_files max_bytes db bs h = elim (Bool-cases (max_bytes == 0)) [
    | inl unbounded ↦ plan_batches_lem max_files db bs (rw (unbounded, plan_batches_bounded) at h)
    | inr limited ↦
        plan_with_lem (plan_bounded_chunks max_files max_bytes) max_files db bs
          (λ _.
            group_chunks-flatten (λ g. bounded_chunks (length g) max_files max_bytes g)
              (length (discovered_files task db)) (discovered_files task db)
              (λ g. bounded_chunks-flatten (length g) max_files max_bytes g (omega arith))
              (omega arith))
          (rw (limited, plan_batches_bounded) at h)
  ]
