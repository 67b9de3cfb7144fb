-- ===== src/App/Drive/Tests.antt =====
-- One pass over a small world: whether the file is on Google Drive. Its folder is there already.
use baidu_drive_mover.Base.{
  refl, ◌≡◌, ℕ, true, false, List, [], ◌∷◌, none, some, ok, if◌then◌else◌, ◌==◌,
}
use baidu_drive_mover.Base.Effects.{ignore}
use baidu_drive_mover.Text.{Str, bytes, str_eq}
use baidu_drive_mover.World.{World}
use baidu_drive_mover.State.Tasks.{update_task_status}
use baidu_drive_mover.State.Drive.Left.{left_of}
use baidu_drive_mover.State.Progress.{PipelineProgress, has_drive_work, pipeline_progress}
use baidu_drive_mover.State.Tests.{now}
use baidu_drive_mover.App.Drive
use baidu_drive_mover.App.Drive.{DriveRunner}
use baidu_drive_mover.App.Drive.Complete.{run_drive-Complete}
use baidu_drive_mover.Drive.Logical.{RemoteItem}
use baidu_drive_mover.Drive.Tests.{uploading, object, ready_db}
use baidu_drive_mover.Drive.Tree.Tests.{building}

-- Opens what the pass computes with.
passing : Unit {0}
unfolding uploading building ignore update_task_status Drive.attach Drive.of_tree_result
    Drive.of_upload_result Drive.needs_authorization Drive.reauthorize Drive.prepare_client
    Drive.ensure_tree Drive.upload_pass Drive.drive_pass Drive.status_after Drive.failed_status
    Drive.fail_drive Drive.finish_drive Drive.run_drive
passing = tt

-- The root of the task shows the folder, and the folder shows the file.
abbrev list_path : List Str → ℕ → Str
list_path [] w = []
list_path (remote ∷ _) w =
    if str_eq remote (bytes "bdm-drive:") then bytes "d" else if w == 0 then [] else bytes "a.txt"

abbrev folder : RemoteItem
folder = record {
  id = bytes "F";
  name = bytes "d";
  path = bytes "d";
  is_dir = true;
  size = none;
  hashes = [];
}

abbrev small_runner : DriveRunner ℕ ℕ
small_runner = record {
  uploader = record {
    outside = record {
      cancelled = λ w. (w, none);
      clock = λ w. (w, now);
      fault = λ _ w. (w, none);
      lost = λ _ w. (w, none);
    };
    run_task = λ root command args w.
        if str_eq command (bytes "lsjson") then (w, ok (list_path args w)) else (1, ok []);
    parse_items = λ out. some (elim out [
      | [] ↦ []
      | c ∷ s ↦ if str_eq (c ∷ s) (bytes "d") then folder ∷ [] else object ∷ []
    ]);
    resolve_temp_relative = λ path w. (w, ok path);
    open_temp_file = λ path w. (w, ok 3);
    stat_size = λ h w. (w, ok 5);
    read_all = λ h w. (w, ok (bytes "abc"));
    close = λ h w. w;
    md5_hex = λ content. content;
    retry_delay = λ d w. (w, none);
    message = λ _. bytes "failed";
  };
  run_base = λ command args w. (w, ok []);
  provision = λ w. (w, none);
  new_client = λ w. (w, none);
  ensure_drive_remote = λ w. (w, ok false);
  probe_drive = λ w. (w, none);
  reauthorize_drive_remote = λ w. (w, none);
  is_auth_required = λ _. false;
  is_cancelled = λ _. false;
  safe_error = λ _. bytes "failed";
}

abbrev start : World ℕ
start = record { db = ready_db; outside = 0 }

passes :
    (Drive.run_drive small_runner (bytes "t1") start).1
    ≡ ok (record { root_id = bytes "R"; files_verified = 1; bytes_verified = 5 })
unfolding passing
passes = refl

abbrev verified_progress : PipelineProgress
verified_progress = record {
  scan_incomplete = true;
  total = 1;
  discovered = 0;
  planned = 0;
  baidu_staging = 0;
  baidu_staged = 0;
  downloading = 0;
  local_ready = 0;
  drive_uploading = 0;
  drive_uploaded = 0;
  drive_verified = 1;
  cleanup_pending = 0;
  done = 0;
  failed_retryable = 0;
  failed_permanent = 0;
  reserved_cache = 5;
  drive_root_ready = true;
  baidu_task_root_registered = true;
  baidu_task_root_cleaned = false;
}

shows :
    pipeline_progress (bytes "t1") (Drive.run_drive small_runner (bytes "t1") start).0.db
    ≡ ok verified_progress
unfolding passing
shows = refl

run_drive-Complete_example :
    (left_of (bytes "t1") (Drive.run_drive small_runner (bytes "t1") start).0.db ≡ 0)
    × (has_drive_work verified_progress ≡ false)
run_drive-Complete_example =
    run_drive-Complete small_runner (bytes "t1") start
      (record { root_id = bytes "R"; files_verified = 1; bytes_verified = 5 }) verified_progress
      passes shows
