-- ===== src/Drive/Tree/Safe.antt =====
-- TreeBuilder.Ensure (internal/drive/tree.go) makes a folder only behind a listing of its parent that
-- shows no object of its name.
use baidu_drive_mover.Base.{
  ◌≡◌, subst, Bool, false, List, [], ◌∷◌, ◌++◌, Result, ok, ok-eq, is_empty,
}
use baidu_drive_mover.Base.Effects.{
  Triple, Keeps, bind, weaken, lift, require, return-Triple, raise-Triple, require-Triple,
  if-Triple, After-state,
}
use baidu_drive_mover.Text.{Str, bytes, trim_space}
use baidu_drive_mover.Path.{base}
use baidu_drive_mover.World.{
  At, World, Failure, IsIdle, Context, store_call, store_call-Keeps, query,
}
use baidu_drive_mover.State.Model.{Directory, Task, StateError}
use baidu_drive_mover.State.Db.{Db}
use baidu_drive_mover.State.Drive.{
  set_task_drive_root, drive_directories, record_directory_drive_id,
}
use baidu_drive_mover.Drive.Logical.{
  RemoteItem, validate_logical_path, remote_path, remote_root, find_task,
}
use baidu_drive_mover.Drive.Guarded.{Out}
use baidu_drive_mover.Drive.Tree
use baidu_drive_mover.Drive.Tree.{TreeBuilder, TreeProblem}
use baidu_drive_mover.Drive.Tree.Listing.{
  parent_of, IsLister, Listed, lift-Kept, list_named_directories-Listed, make_if_missing-Kept,
}

-- `P` is what all calls keep, `ClearBase` and `ClearTask root` what the listings of the two clients
-- leave behind. A command that makes a folder is a step from the second to the first.
pub record IsBuilder {W E : Type 0} (b : TreeBuilder W E) (P : W → Type 0)
    (ClearBase : Str → Str → W → Type 0) (ClearTask : Str → Str → Str → W → Type 0) : Type 0 where
  pub idle : IsIdle b.outside (Out P)
  pub base_lister : IsLister b b.run_base P ClearBase
  pub task_lister : (root : Str) → IsLister b (b.run_task root) P (ClearTask root)
  pub root_made :
      (name : Str) (w : W)
      → ClearBase (bytes "/") name w
      → P (b.run_base (bytes "mkdir") ((remote_root ++ name) ∷ []) w).0
  pub directory_made :
      (root path remote : Str) (w : W)
      → ClearTask root (parent_of path) (base path) w
      → remote_path path ≡ ok remote
      → P (b.run_task root (bytes "mkdir") (remote ∷ []) w).0

module _ {W E : Type 0} {b : TreeBuilder W E} {P : W → Type 0} {ClearBase : Str → Str → W → Type 0}
    {ClearTask : Str → Str → Str → W → Type 0} (g : IsBuilder b P ClearBase ClearTask) where
  abbrev Safe : World W → Type 0
  Safe = At (Out P)

  stored :
      {A : Type 0} (m : Str → Db → Db × Result StateError A)
      → Keeps Safe (store_call {D = TreeProblem} b.outside Context.caller m)
  stored m = store_call-Keeps (Out P) b.outside g.idle Context.caller m (λ _ _ _ p. p)

  queried :
      {A : Type 0} (q : Db → Result StateError A)
      → Keeps Safe (query {D = TreeProblem} b.outside Context.caller q)
  unfolding query
  queried q = stored (λ _ db. (db, q db))

  lifted : {D A : Type 0} (r : Result D A) → Keeps Safe (lift r)
  lifted r = lift-Kept g.base_lister r

  -- A test between a listing and what is done with it.
  test :
      {Q : World W → Type 0} (t : Bool) (e : Failure E TreeProblem)
      → ((s : World W) → Q s → Safe s)
      → Triple Q (require t e) (λ _. Q) (λ _. Safe)
  test t e safe = require-Triple t e (λ s p _. p) (λ s p _. safe s p)

  ensure_task_root-Safe : (task name : Str) → Keeps Safe (Tree.ensure_task_root b task name)
  unfolding Tree.ensure_task_root
  ensure_task_root-Safe task name =
      bind (list_named_directories-Listed g.base_lister (bytes "/") name) λ matches.
        bind (test _ _ (λ s p. p.0)) λ _.
          bind
            (make_if_missing-Kept g.base_lister (ok (remote_root ++ name)) (bytes "/") name matches
              (λ remote w clear_ e.
                subst (λ r. P (b.run_base (bytes "mkdir") (r ∷ []) w).0) (ok-eq e)
                  (g.root_made name w clear_)))
            λ found.
              bind
                (lifted (Tree.of_tree (Tree.identified_item found TreeProblem.unreconciled_root)))
                λ item.
                  bind (stored (set_task_drive_root task name item.id))
                    λ _. return-Triple item.id (λ s p. p)

  record_directory-Safe :
      (task root path : Str) (matches : List RemoteItem)
      → Triple
          (Listed (g.task_lister root) (parent_of path) (base path) matches)
          (Tree.record_directory b task root path (parent_of path) (base path) matches)
          (λ _. Safe)
          (λ _. Safe)
  unfolding Tree.record_directory
  record_directory-Safe task root path matches =
      bind
        (make_if_missing-Kept (g.task_lister root) (remote_path path) (parent_of path) (base path)
          matches (λ remote w clear_ e. g.directory_made root path remote w clear_ e))
        λ found.
          bind
            (lifted (Tree.of_tree (Tree.identified_item found TreeProblem.unreconciled_directory)))
            λ item. stored (record_directory_drive_id task path item.id)

  ensure_directory-Safe :
      (task root : Str) (d : Directory) → Keeps Safe (Tree.ensure_directory b task root d)
  unfolding Tree.ensure_directory
  ensure_directory-Safe task root d =
      bind (lifted (Tree.of_logical (validate_logical_path d.logical_path false))) λ path.
        bind (list_named_directories-Listed (g.task_lister root) (parent_of path) (base path))
          λ matches. bind (test _ _ (λ s p. p.0)) λ _.
            if-Triple (is_empty (trim_space d.drive_id))
              (λ _. record_directory-Safe task root path matches)
              λ _. weaken (test {Q = Safe} _ _ (λ s p. p)) (λ s p. p.0) (λ _ s p. p) (λ _ s p. p)

  ensure_directories-Safe :
      (task root : Str) (ds : List Directory) → Keeps Safe (Tree.ensure_directories b task root ds)
  unfolding Tree.ensure_directories
  ensure_directories-Safe task root [] = return-Triple tt (λ s p. p)
  ensure_directories-Safe task root (d ∷ ds) =
      bind (ensure_directory-Safe task root d) λ _. ensure_directories-Safe task root ds

  root_id_of-Safe :
      (task : Str) (t : Task) (name : Str) → Keeps Safe (Tree.root_id_of b task t name)
  unfolding Tree.root_id_of
  root_id_of-Safe task t name =
      if-Triple (is_empty (trim_space t.drive_root_id)) (λ _. ensure_task_root-Safe task name)
        λ _.
          if-Triple (is_empty t.drive_root_name) (λ _. raise-Triple _ (λ s p. p))
            λ _. return-Triple (trim_space t.drive_root_id) (λ s p. p)

  ensure-Safe : (task : Str) → Keeps Safe (Tree.ensure b task)
  unfolding Tree.ensure Tree.root_name_of
  ensure-Safe task = bind (queried (find_task task)) λ t.
      bind (bind (test _ _ (λ s p. p)) λ _. return-Triple _ (λ s p. p)) λ name.
        bind (root_id_of-Safe task t name) λ root.
          bind (queried (λ db. ok (drive_directories task db)))
            λ ds. bind (ensure_directories-Safe task root ds) λ _. return-Triple root (λ s p. p)

  -- A run of the builder keeps a property `P` of the outside, whatever it returns, if these do: the
  -- context, the clock and the driver, the listings, and a command that makes the folder of a task
  -- or a folder below it, at which `ClearBase`, or `ClearTask` of the task's folder, holds for the
  -- parent and the name of just the folder that is made. These two are only established by a listing
  -- of that parent that has no item of that name.
  pub ensure-Guarded : (task : Str) (s : World W) → P s.outside → P (Tree.ensure b task s).0.outside
  ensure-Guarded task s p = After-state Safe (ensure-Safe task s p) (λ _ _ q. q) (λ _ _ q. q)
