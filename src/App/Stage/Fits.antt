-- ===== src/App/Stage/Fits.antt =====
-- What the check of the watermark in internal/app/stage.go decides.
use baidu_drive_mover.Base.{ℕ, ◌≤◌, ◌<◌, ◌≡◌, ◌⊎◌, List, ◌∷◌, ◌++◌, Option, none, some, All}
use baidu_drive_mover.State.Db.{BatchRow}
use baidu_drive_mover.App.Stage.{StagingRefusal, StageLimits}

-- A limit of 0 is none.
abbrev Within : ℕ → ℕ → Type 0
Within limit bytes = (limit ≡ 0) ⊎ (bytes ≤ limit)

-- The batch keeps both limits.
abbrev Fits : StageLimits → BatchRow → Type 0
Fits l b = Within l.max_cache_bytes b.total_bytes × Within l.max_batch_bytes b.total_bytes

-- The refusal is about the batch: too large for the cache at all, or for what is free in it, and
-- then with a limit that is the cache's where that one is set.
abbrev Describes : StageLimits → StagingRefusal → BatchRow → Type 0
Describes l (StagingRefusal.too_large id bytes limit) b =
    (id ≡ b.batch_id) × (bytes ≡ b.total_bytes) × (limit ≡ l.max_cache_bytes) × (limit < bytes)
Describes l (StagingRefusal.deferred id bytes available limit) b =
    (id ≡ b.batch_id)
    × (bytes ≡ b.total_bytes)
    × (available ≡ l.max_batch_bytes)
    × (available < bytes)
    × (((l.max_cache_bytes ≡ 0) × (limit ≡ available))
        ⊎ ((limit ≡ l.max_cache_bytes) × (bytes ≤ limit)))

-- No batch of the list is refused, or the first that does not fit.
abbrev pub IsVerdict : StageLimits → List BatchRow → Option StagingRefusal → Type 0
IsVerdict l bs none = All (Fits l) bs
IsVerdict l bs (some r) =
    (before : List BatchRow) × (b : BatchRow) × (after : List BatchRow) × (bs ≡ before ++ b ∷ after)
    × All (Fits l) before
    × Describes l r b
