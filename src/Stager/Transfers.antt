-- ===== src/Stager/Transfers.antt =====
-- The recursion of transferSubset and transferSplit (internal/staging/stager.go): it ends, and
-- transfers only files of the batch.
use baidu_drive_mover.Base.{
  Option-cases, ◌≡◌, refl, ℕ, zero, suc, ◌-◌, ◌≤◌, ◌<◌, Bool, false, inl, inr, List, [], ◌∷◌,
  Option, none, some, ok, All, All-map, is_empty, length, arith, ltb, leb, ◌==◌, ltb→lt,
}
use baidu_drive_mover.Base.Effects.{caught, Triple, bind, return-Triple, raise-Triple, if-Triple}
use baidu_drive_mover.Text.{Str}
use baidu_drive_mover.World.{
  At, Failure, Context, outside_call, report-Keeps, outside_call-Keeps, store_call-Keeps, Act,
}
use baidu_drive_mover.World.Foreign.{report-Foreign, outside_call-Foreign, store_call-Foreign}
use baidu_drive_mover.State.Model.{File, Batch}
use baidu_drive_mover.State.Db.{Db}
use baidu_drive_mover.State.History.{Call, perform}
use baidu_drive_mover.State.Staging.{record_staged_files}
use baidu_drive_mover.Stager
use baidu_drive_mover.Stager.{Executor, Problem}
use baidu_drive_mover.Stager.Parts.{
  OneOf, not_empty, All-select, length-select, chunk_size_bounds, pieces-All, All-OneOf,
}
use baidu_drive_mover.Stager.Careful.{
  IsCareful, Careful, Failed, IsReported, source_ids-IsReal, staged_of-IsReal, problem-Careful,
  Foreign-Careful, caught-Careful,
}

module _ {W E : Type 0} {x : Executor W E} {sha256_hex : Str → Str} {b : Batch}
    {P : Db → W → Type 0} (c : IsCareful x sha256_hex b P) where
  -- Files of the batch.
  abbrev Part : List File → Type 0
  Part fs = All (λ f. OneOf f b.files) fs

  record-step :
      (staged : List (Str × Str)) (now : Str) (db : Db) (w : W)
      → P db w
      → P (record_staged_files b.task_id b.batch_id staged now db).0 w
  unfolding perform
  record-step staged now = c.stored (Call.records_staged_files b.task_id b.batch_id staged now)

  missing_files-Part : (staged : List (Str × Str)) → Part (Stager.missing_files b staged)
  unfolding Stager.missing_files
  missing_files-Part staged = All-select _ _ b.files (All-OneOf _ b.files (λ f m. m))

  pub reconcile-Careful : Triple (At P) (Stager.reconcile x b) (λ fs s. At P s × Part fs) (Failed P)
  unfolding Stager.reconcile
  reconcile-Careful =
      bind
        (Foreign-Careful P _
          (outside_call-Keeps P (x.list_staging_directory b.baidu_staging_path)
            (λ s p. c.listed s.db s.outside p))
          (outside_call-Foreign (x.list_staging_directory b.baidu_staging_path)))
        λ items.
          bind (problem-Careful P (Stager.staged_of b items) (staged_of-IsReal b items)) λ staged.
            bind
              (λ s p.
                Foreign-Careful P _
                  (store_call-Keeps P x.outside c.idle Context.caller
                    (record_staged_files b.task_id b.batch_id staged) (record-step staged))
                  (store_call-Foreign x.outside Context.caller
                    (record_staged_files b.task_id b.batch_id staged))
                  s p.0)
              λ _.
                return-Triple (Stager.missing_files b staged)
                  (λ s p. (p, missing_files-Part staged))

  -- What is done with a list of files of the batch that is shorter than a bound.
  abbrev CarefulBelow : ℕ → (List File → Act W E Problem (Unit {0})) → Type 0
  CarefulBelow bound f =
      (fs : List File) → length fs < bound → Part fs → is_empty fs ≡ false → Careful P (f fs)

  if_any-Careful :
      (bound : ℕ) (f : List File → Act W E Problem (Unit {0}))
      → CarefulBelow bound f
      → (fs : List File) → length fs < bound
      → Part fs
      → Careful P (Stager.if_any x f fs)
  unfolding Stager.if_any
  if_any-Careful bound f careful [] short part = return-Triple tt (λ s p. p)
  if_any-Careful bound f careful (g ∷ fs) short part = careful (g ∷ fs) short part refl

  for_each-Careful :
      (f : List File → Act W E Problem (Unit {0})) (cs : List (List File))
      → All (λ fs. Careful P (f fs)) cs
      → Careful P (Stager.for_each x f cs)
  unfolding Stager.for_each
  for_each-Careful f [] all = return-Triple tt (λ s p. p)
  for_each-Careful f (fs ∷ cs) all = bind all.0 λ _. for_each-Careful f cs all.1

  transfer_split-Careful :
      (f : List File → Act W E Problem (Unit {0})) (fs : List File) (limit : ℕ)
      → ((gs : List File) → length gs < length fs → Part gs → Careful P (f gs))
      → Part fs
      → Careful P (Stager.transfer_split x f fs limit)
  unfolding Stager.transfer_split
  transfer_split-Careful f fs limit each part =
      if-Triple (leb (length fs) 1) (λ _. raise-Triple _ (λ s p. (p, refl)))
        λ many.
          let (_, short) = chunk_size_bounds limit (length fs) (ground arith) in
          for_each-Careful f _ (
            All-map _ _ (Stager.pieces (length fs) (Stager.chunk_size limit (length fs)) fs)
              (λ gs h. each gs (omega (arith, h.1)) h.0)
              (pieces-All (λ g. OneOf g b.files) (length fs) (Stager.chunk_size limit (length fs))
                fs part))

  module _ (again : List File → Act W E Problem (Unit {0})) (retry : Act W E Problem (Unit {0}))
      (split : List File → ℕ → Act W E Problem (Unit {0})) (last : Bool) (attempt : ℕ)
      (current : List File) (again_careful : CarefulBelow (length current) again)
      (retry_careful : last ≡ false → Careful P retry)
      (split_careful : (fs : List File) (limit : ℕ)
        → length fs ≤ length current
        → Part fs
        → Careful P (split fs limit)) where
    go_on-Careful :
        (missing : List File) (e : Failure E Problem)
        → Part missing
        → is_empty missing ≡ false
        → IsReported e
        → Careful P (Stager.go_on x again retry last attempt current missing e)
    unfolding Stager.go_on
    go_on-Careful missing e part some_missing real =
        if-Triple (ltb (length missing) (length current))
          (λ fewer. again_careful missing (ltb→lt _ _ fewer) part some_missing)
          λ _.
            if-Triple last (λ _. raise-Triple e (λ s p. (p, real)))
              λ more.
                bind
                  (Foreign-Careful P _
                    (report-Keeps P (x.sleep (Stager.backoff attempt))
                      (c.slept (Stager.backoff attempt)))
                    (report-Foreign (x.sleep (Stager.backoff attempt))))
                  λ _. retry_careful more

    after_error-Careful :
        (missing : List File) (e : Failure E Problem)
        → length missing ≤ length current
        → Part missing
        → is_empty missing ≡ false
        → IsReported e
        → Careful P (
            Stager.after_error x split
              (Stager.go_on x again retry last attempt current missing)
              missing
              e)
    unfolding Stager.after_error
    after_error-Careful missing (Failure.refused e) short part some_missing real =
        go_on-Careful missing _ part some_missing real
    after_error-Careful missing (Failure.found p) short part some_missing real =
        go_on-Careful missing _ part some_missing real
    after_error-Careful missing (Failure.outer e) short part some_missing real =
        elim (Option-cases (x.transfer_limit e)) [
          | inr (limit, found) ↦
              rw (found, Stager.after_error) (split_careful missing limit short part)
          | inl none_ ↦
              rw (none_, Stager.after_error)
                (if-Triple (x.ends_transfer e) (λ _. raise-Triple _ (λ s p. (p, tt)))
                  λ _.
                    if-Triple (x.is_conflict e)
                      (λ _.
                        if-Triple (length missing == 1) (λ _. raise-Triple _ (λ s p. (p, refl)))
                          (λ _. split_careful missing 0 short part))
                      (λ _. go_on-Careful missing _ part some_missing tt))
        ]

    after_transfer-Careful :
        (missing : List File) (o : Option (Failure E Problem))
        → length missing ≤ length current
        → Part missing
        → ((e : Failure E Problem) → o ≡ some e → IsReported e)
        → Careful P (
            Stager.after_transfer x split
              (Stager.go_on x again retry last attempt current missing)
              missing
              o)
    unfolding Stager.after_transfer
    after_transfer-Careful missing none short part real =
        if-Triple (is_empty missing) (λ _. return-Triple tt (λ s p. p))
          (λ h. go_on-Careful missing _ part h refl)
    after_transfer-Careful missing (some e) short part real =
        if-Triple (is_empty missing) (λ _. return-Triple tt (λ s p. p))
          (λ h. after_error-Careful missing e short part h (real e refl))

    -- The call, and the look at what has arrived.
    transfer-Careful :
        (ids : List ℕ)
        → Part current
        → is_empty current ≡ false
        → Stager.source_ids current ≡ ok ids
        → Triple
            (At P)
            (caught (outside_call (x.transfer_files ids b.baidu_staging_path)))
            (λ o s. At P s × ((e : Failure E Problem) → o ≡ some e → IsReported e))
            (Failed P)
    transfer-Careful ids part some_files known =
        caught-Careful P _
          (outside_call-Keeps P (x.transfer_files ids b.baidu_staging_path)
            (λ s p. c.transferred current ids s.db s.outside known part some_files p))
          (outside_call-Foreign (x.transfer_files ids b.baidu_staging_path))

    attempt_transfer-Careful :
        Part current
        → is_empty current ≡ false
        → Careful P (Stager.attempt_transfer x again retry split last attempt b current)
    unfolding Stager.attempt_transfer Stager.intersect_missing
    attempt_transfer-Careful part some_files =
        bind (problem-Careful P (Stager.source_ids current) (source_ids-IsReal current)) λ ids s p.
          (bind (transfer-Careful ids part some_files p.1) λ o s q.
              (bind reconcile-Careful λ missing_all s r.
                  after_transfer-Careful (Stager.intersect_missing current missing_all) o
                    (length-select _ current) (All-select _ _ current part) q.1 s r.0)
                s q.0)
            s p.0

  transfer_loop-Careful :
      (n left : ℕ) (current : List File)
      → length current ≤ n
      → 0 < left
      → 0 < Stager.attempt_limit x
      → Part current
      → is_empty current ≡ false
      → Careful P (Stager.transfer_loop x n left b current)
  unfolding Stager.transfer_loop
  transfer_loop-Careful n zero current short pos limit part some_files = absurd (omega arith)
  transfer_loop-Careful zero (suc left) current short pos limit part some_files =
      absurd (omega (arith, not_empty current some_files))
  transfer_loop-Careful (suc n) (suc left) current short pos limit part some_files =
      attempt_transfer-Careful _ _ _ (left == 0) (Stager.attempt_limit x - suc left) current
        (λ fs fewer. transfer_loop-Careful n (Stager.attempt_limit x) fs (omega arith) limit limit)
        (λ more.
          transfer_loop-Careful (suc n) left current short (ground arith) limit part some_files)
        (λ fs amount fewer fs_part.
          transfer_split-Careful _ fs amount
            (λ gs gs_short gs_part.
              if_any-Careful (length current) _
                (λ hs hs_short.
                  transfer_loop-Careful n (Stager.attempt_limit x) hs (omega arith) limit limit)
                gs (omega arith) gs_part)
            fs_part)
        part some_files

  attempt_limit_pos : 0 < Stager.attempt_limit x
  attempt_limit_pos = ground arith

  pub transfer_subset-Careful :
      (fs : List File) → Part fs → Careful P (Stager.transfer_subset x b fs)
  unfolding Stager.transfer_subset
  transfer_subset-Careful fs part =
      if_any-Careful (suc (length fs)) _
        (λ gs short gs_part some_files.
          transfer_loop-Careful (length fs) (Stager.attempt_limit x) gs (omega arith)
            attempt_limit_pos attempt_limit_pos gs_part some_files)
        fs (omega arith) part
