-- ===== src/App/Cleanup/Tests.antt =====
-- A pass of the cleanup on the small world of the engine's tests, with a client that is a number.
use baidu_drive_mover.Base.{ℕ, true, false, [], none, ok}
use baidu_drive_mover.Text.{bytes}
use baidu_drive_mover.World.{At}
use baidu_drive_mover.State.Tests.{digest}
use baidu_drive_mover.Cleanup.Tests.{Paths, small_engine, start, t1, OwnPaths, own_path}
use baidu_drive_mover.App.Cleanup
use baidu_drive_mover.App.Cleanup.{CleanupRunner}
use baidu_drive_mover.App.Cleanup.Safe.{run_cleanup-Permitted}

-- The cookies that are saved say nothing, and a login is always needed.
abbrev small_runner : CleanupRunner Paths ℕ ℕ
small_runner = record {
  outside = small_engine.outside;
  load_cookies = λ w. (w, ok []);
  save_cookies = λ _ w. (w, none);
  login = λ w. (w, ok (bytes "BDUSS"));
  new_client = λ _ w. (w, ok 1);
  has_login_cookies = λ _. false;
  engine = λ _. small_engine;
  is_auth_required = λ _. true;
  is_blocking = λ _. false;
  is_cancelled = λ _. false;
  safe_error = λ _. bytes "failed";
  max_batches = 3;
}

run_cleanup-Permitted_example : At OwnPaths (Cleanup.run_cleanup small_runner t1 start).0
unfolding Cleanup.make_engine
run_cleanup-Permitted_example =
    run_cleanup-Permitted {r = small_runner} {sha256_hex = digest} {task = t1} {P = OwnPaths}
      (record {
        idle = record {
          cancelled = λ _ _ p. p;
          clock = λ _ _ p. p;
          fault = λ _ _ _ p. p;
          lost = λ _ _ _ p. p;
        };
        stored = λ c db w p. p;
        loaded = λ db w p. p;
        saved = λ _ db w p. p;
        logged_in = λ db w p. p;
        made = λ _ db w p. p;
        guarded = λ _. record {
          idle = record {
            cancelled = λ _ _ p. p;
            clock = λ _ _ p. p;
            fault = λ _ _ _ p. p;
            lost = λ _ _ _ p. p;
          };
          stored = λ c db w p. p;
          listed = λ path db w p. p;
          removed = λ path db w may p. (((may.id, may.exact), p.0), p.1);
          deleted = λ path db w may p. (p.0, (own_path path db may, p.1));
        };
      })
      start (tt, tt)
