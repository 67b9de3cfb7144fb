-- ===== src/App/Stage.antt =====
-- internal/app/stage.go: the check of the watermark, which StageRunner.Run makes on the batches that
-- are pending before it stages any.
pub mod Fits
mod Tests
use baidu_drive_mover.Base.{
  ℕ, Bool, ◌&&◌, List, [], ◌∷◌, Option, none, some, if◌then◌else◌, ltb, length, take,
}
use baidu_drive_mover.Text.{Str}
use baidu_drive_mover.State.Db.{BatchRow}

-- The errors StagingBatchTooLargeError and StagingDeferredByWatermarkError.
pub data StagingRefusal : Type 0 where
  too_large : (batch_id : Str) (bytes limit : ℕ) → StagingRefusal
  deferred : (batch_id : Str) (bytes available limit : ℕ) → StagingRefusal

-- The limits of the runner, each of them 0 where it is not positive.
pub record StageLimits : Type 0 where
  pub max_batches : ℕ
  pub max_cache_bytes : ℕ
  pub max_batch_bytes : ℕ

-- Whether a limit is set and exceeded.
unfoldable pub exceeds : ℕ → ℕ → Bool
exceeds limit bytes = ltb 0 limit && ltb limit bytes

-- The batches that are checked: the first ones, if there is a limit on them.
unfoldable pub checked_batches : ℕ → List BatchRow → List BatchRow
checked_batches max_batches pending =
    if exceeds max_batches (length pending) then take max_batches pending else pending

unfoldable pub reported_limit : StageLimits → ℕ
reported_limit l = if ltb 0 l.max_cache_bytes then l.max_cache_bytes else l.max_batch_bytes

-- The refusal of the first batch that does not fit.
unfoldable pub first_refusal : StageLimits → List BatchRow → Option StagingRefusal
first_refusal l [] = none
first_refusal l (b ∷ bs) =
    let rest = first_refusal l bs in
    if exceeds l.max_cache_bytes b.total_bytes
    then some (StagingRefusal.too_large b.batch_id b.total_bytes l.max_cache_bytes)
    else if exceeds l.max_batch_bytes b.total_bytes
    then some
        (StagingRefusal.deferred b.batch_id b.total_bytes l.max_batch_bytes (reported_limit l))
    else rest

unfoldable pub check_watermark : StageLimits → List BatchRow → Option StagingRefusal
check_watermark l pending = first_refusal l (checked_batches l.max_batches pending)
