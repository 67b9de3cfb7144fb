-- ===== src/Drive/Tree/Tests.antt =====
-- The builder run on a small world: how many folders there are, and which command was the last.
use baidu_drive_mover.Base.{
  refl, ◌≡◌, ℕ, ◌+◌, Bool, true, false, [], ◌∷◌, some, none, Result, ok, leb, ◌==◌, if◌then◌else◌,
  map,
}
use baidu_drive_mover.Base.Effects.{continue, ◌>>=◌, return, raise, require, lift, expect}
use baidu_drive_mover.Text.{Str, bytes, str_eq, has_prefix, strip_prefix, contains_byte, trim_space}
use baidu_drive_mover.Path.{clean, split, dir, base}
use baidu_drive_mover.World.{
  report, outside_call, read_clock, run_store, of_store, store_call, query,
}
use baidu_drive_mover.State.Model.{Directory}
use baidu_drive_mover.State.Tasks.{get_task}
use baidu_drive_mover.State.Drive.{
  set_task_drive_root, strip_slashes, depth_of, logical_depth, shallow_first, drive_directories,
  record_directory_drive_id,
}
use baidu_drive_mover.State.Tests.{program, now, staged_db}
use baidu_drive_mover.Drive.Logical.{
  trim_prefix, is_unsafe_component, validate_logical_path, remote_path, find_task,
}
use baidu_drive_mover.Drive.Tree
use baidu_drive_mover.Drive.Tree.{TreeBuilder, TreeProblem}
use baidu_drive_mover.Drive.Tree.Safe.{ensure-Guarded}

-- Opens what the builder computes with.
unfoldable pub building : Unit {0}
unfolding program continue ◌>>=◌ return raise require lift expect report outside_call read_clock
    run_store of_store store_call query clean split dir base has_prefix strip_prefix contains_byte
    trim_space get_task set_task_drive_root strip_slashes depth_of logical_depth shallow_first
    drive_directories record_directory_drive_id trim_prefix is_unsafe_component
    validate_logical_path remote_path find_task Tree.of_logical Tree.directory_matches Tree.of_tree
    Tree.is_task_component Tree.is_ambiguous Tree.identified_item Tree.is_persisted
    Tree.exact_directory_matches Tree.list_named_directories Tree.make_if_missing
    Tree.ensure_task_root Tree.record_directory Tree.ensure_directory Tree.ensure_directories
    Tree.root_name_of Tree.root_id_of Tree.ensure
building = tt

-- A listing shows the folder whose name it prints.
abbrev builder_on :
    {W : Type 0} → (W → W × Result ℕ Str) → (W → W × Result ℕ Str) → (W → W) → TreeBuilder W ℕ
builder_on list_base list_task make = record {
  outside = record {
    cancelled = λ w. (w, none);
    clock = λ w. (w, now);
    fault = λ _ w. (w, none);
    lost = λ _ w. (w, none);
  };
  run_base =
      λ command args w. if str_eq command (bytes "lsjson") then list_base w else (make w, ok []);
  run_task = λ root command args w.
      if str_eq command (bytes "lsjson") then list_task w else (make w, ok []);
  parse_items = λ out. some (elim out [
    | [] ↦ []
    | c ∷ s ↦
        record {
          id = bytes " I ";
          name = c ∷ s;
          path = c ∷ s;
          is_dir = true;
          size = none;
          hashes = [];
        }
        ∷ []
  ]);
}

abbrev counting_builder : TreeBuilder ℕ ℕ
counting_builder =
    builder_on (λ w. (w, ok (if w == 0 then [] else bytes "BaiduDriveMover-t1")))
      (λ w. (w, ok (if leb w 1 then [] else bytes "d"))) (λ w. w + 1)

builds :
    (Tree.ensure counting_builder (bytes "t1") (record { db = staged_db; outside = 0 })).1
    ≡ ok (bytes " I ")
unfolding building
builds = refl

records :
    map
      (λ (d : Directory). d.drive_id)
      (Tree.ensure counting_builder
        (bytes "t1")
        (record { db = staged_db; outside = 0 })).0.db.directories
    ≡ bytes "I" ∷ []
unfolding building
records = refl

-- The last command: a listing, or another; or a folder was made behind something else.
data Last : Type 0 where
  other listed broken : Last

abbrev list_last : Last → Last
list_last Last.broken = Last.broken
list_last _ = Last.listed

abbrev make_last : Last → Last
make_last Last.listed = Last.other
make_last _ = Last.broken

abbrev is_fine : Last → Bool
is_fine Last.broken = false
is_fine _ = true

abbrev IsFine : Last → Type 0
IsFine w = is_fine w ≡ true

list_last-IsFine : (w : Last) → IsFine w → IsFine (list_last w)
list_last-IsFine Last.broken p = p
list_last-IsFine Last.listed p = refl
list_last-IsFine Last.other p = refl

list_last-listed : (w : Last) → IsFine w → list_last w ≡ Last.listed
list_last-listed Last.broken p = cc
list_last-listed Last.listed p = refl
list_last-listed Last.other p = refl

abbrev logged_builder : TreeBuilder Last ℕ
logged_builder = builder_on (λ w. (list_last w, ok [])) (λ w. (list_last w, ok [])) make_last

ensure-Guarded_example :
    IsFine
      (Tree.ensure logged_builder
        (bytes "t1")
        (record { db = staged_db; outside = Last.other })).0.outside
unfolding str_eq
ensure-Guarded_example =
    ensure-Guarded {P = IsFine} {ClearBase = λ _ _ w. w ≡ Last.listed}
      {ClearTask = λ _ _ _ w. w ≡ Last.listed}
      (record {
        idle = record {
          cancelled = λ _ _ p. p;
          clock = λ _ _ p. p;
          fault = λ _ _ _ p. p;
          lost = λ _ _ _ p. p;
        };
        base_lister = record {
          listed = λ _ w p. list_last-IsFine w p;
          cleared = λ _ _ _ _ _ w p _ _ _ _. list_last-listed w p;
        };
        task_lister = λ _. record {
          listed = λ _ w p. list_last-IsFine w p;
          cleared = λ _ _ _ _ _ w p _ _ _ _. list_last-listed w p;
        };
        root_made = λ _ w p. rw p refl;
        directory_made = λ _ _ _ w p _. rw p refl;
      })
      (bytes "t1") (record { db = staged_db; outside = Last.other }) refl
