-- ===== src/Baidu/Remote.antt =====
-- internal/baidu/staging_api.go: RemoteFile, an entry of a listing of the user's Baidu drive.
use baidu_drive_mover.Base.{ℕ, Bool, Option}
use baidu_drive_mover.Text.{Str}

pub record RemoteFile : Type 0 where
  pub fs_id : ℕ  -- int64, 0 where it is not positive
  pub name : Str
  pub path : Str
  pub size : Option ℕ  -- int64, none where it is negative
  pub md5 : Str
  pub is_dir : Bool
