-- ===== src/App/Stage/Tests.antt =====
-- A batch of 5 bytes at watermarks of 4 bytes and below.
use baidu_drive_mover.Base.{refl, ◌≡◌, [], ◌∷◌, some}
use baidu_drive_mover.Cleanup.Tests.{candidate}
use baidu_drive_mover.App.Stage.{
  StagingRefusal, StageLimits, exceeds, checked_batches, reported_limit, first_refusal,
  check_watermark,
}

abbrev limits : StageLimits
limits = record { max_batches = 1; max_cache_bytes = 10; max_batch_bytes = 4 }

defers :
    (check_watermark limits (candidate ∷ candidate ∷ [])
      ≡ some (StagingRefusal.deferred candidate.batch_id 5 4 10))
unfolding exceeds checked_batches reported_limit first_refusal check_watermark
defers = refl
