-- ===== src/Drive/Tree.antt =====
-- internal/drive/tree.go: TreeBuilder.Ensure, the folder of a task and those below it.
pub mod Listing
pub mod Safe
pub mod Tests
use baidu_drive_mover.Base.{
  Bool, true, false, not, ◌||◌, List, [], ◌∷◌, ◌++◌, Option, Result, ok, err, if◌then◌else◌,
  is_empty,
}
use baidu_drive_mover.Base.Effects.{◌>>=◌, ◌>>◌, return, raise, require, lift, expect}
use baidu_drive_mover.Text.{Str, bytes, str_eq, contains_byte, trim_space}
use baidu_drive_mover.Path.{dir, base}
use baidu_drive_mover.World.{Context, Failure, Outside, Act, outside_call, store_call, query}
use baidu_drive_mover.State.Model.{Task, Directory}
use baidu_drive_mover.State.Drive.{
  set_task_drive_root, drive_directories, record_directory_drive_id,
}
use baidu_drive_mover.Drive.Logical.{
  Reason, RemoteItem, validate_logical_path, remote_path, remote_root, find_task,
}

-- The errors that the builder makes itself.
pub data TreeProblem : Type 0 where
  logical : Reason → TreeProblem
  unsafe_task unnamed_root ambiguous_root ambiguous_directory moved_directory : TreeProblem
  unreconciled_root unreconciled_directory bad_listing not_a_directory : TreeProblem

-- What the builder calls; `parse_items` is json.Unmarshal.
pub record TreeBuilder (W E : Type 0) : Type 0 where
  pub outside : Outside W E
  pub run_base : Str → List Str → W → W × Result E Str
  pub run_task : Str → Str → List Str → W → W × Result E Str
  pub parse_items : Str → Option (List RemoteItem)

unfoldable pub of_logical : {E A : Type 0} → Result Reason A → Result (Failure E TreeProblem) A
of_logical (ok a) = ok a
of_logical (err r) = err (Failure.found (TreeProblem.logical r))

-- The loop over a listing: the items of the name, each a folder with an ID.
unfoldable pub directory_matches : Str → List RemoteItem → Result TreeProblem (List RemoteItem)
directory_matches name [] = ok []
directory_matches name (item ∷ items) =
    let rest = directory_matches name items in
    if not (str_eq item.name name)
    then rest
    else if not item.is_dir || is_empty (trim_space item.id)
    then err TreeProblem.not_a_directory
    else elim rest [ ok matches ↦ ok (item ∷ matches) | err e ↦ err e ]

unfoldable pub of_tree : {E A : Type 0} → Result TreeProblem A → Result (Failure E TreeProblem) A
of_tree (ok a) = ok a
of_tree (err p) = err (Failure.found p)

unfoldable pub is_task_component : Str → Bool
is_task_component id = not (
    is_empty id
    || (contains_byte b'/' id
        || (contains_byte b'\\' id
            || (contains_byte 0 id || (str_eq id (bytes ".") || str_eq id (bytes ".."))))))

abbrev pub tree_flags : List Str
tree_flags = bytes "--no-modtime" ∷ bytes "--no-mimetype" ∷ []

unfoldable pub is_ambiguous : List RemoteItem → Bool
is_ambiguous (_ ∷ _ ∷ _) = true
is_ambiguous _ = false

-- The only item of a list, if it has an ID.
unfoldable pub identified_item : List RemoteItem → TreeProblem → Result TreeProblem RemoteItem
identified_item (item ∷ []) e = if is_empty (trim_space item.id) then err e else ok item
identified_item _ e = err e

-- A folder that is recorded is the one that is listed.
unfoldable pub is_persisted : List RemoteItem → Str → Bool
is_persisted (item ∷ []) id = str_eq item.id id
is_persisted _ id = false

module _ {W E : Type 0} (b : TreeBuilder W E) where
  -- One of the two clients runs a command.
  abbrev pub Command : Type 0
  Command = Str → List Str → W → W × Result E Str

  unfoldable pub exact_directory_matches : Str → Str → Act W E TreeProblem (List RemoteItem)
  exact_directory_matches raw name = do
    items ← expect (b.parse_items raw) (Failure.found TreeProblem.bad_listing)
    lift (of_tree (directory_matches name items))

  -- listNamedDirectoriesBase and listNamedDirectoriesTask, which differ in the client.
  unfoldable pub list_named_directories :
      Command → Str → Str → Act W E TreeProblem (List RemoteItem)
  list_named_directories run parent name = do
    remote ← lift (of_logical (remote_path parent))
    raw ← outside_call (run (bytes "lsjson") (remote ∷ tree_flags))
    exact_directory_matches raw name

  -- An empty listing leads to a new folder, and to another listing.
  unfoldable pub make_if_missing :
      Command
      → Result Reason Str
      → Str
      → Str
      → List RemoteItem
      → Act W E TreeProblem (List RemoteItem)
  make_if_missing run target parent name [] = do
    remote ← lift (of_logical target)
    _ ← outside_call (run (bytes "mkdir") (remote ∷ []))
    list_named_directories run parent name
  make_if_missing run target parent name (item ∷ items) = return (item ∷ items)

  unfoldable pub ensure_task_root : Str → Str → Act W E TreeProblem Str
  ensure_task_root task root_name = do
    matches ← list_named_directories b.run_base (bytes "/") root_name
    require (not (is_ambiguous matches)) (Failure.found TreeProblem.ambiguous_root)
    found ← make_if_missing b.run_base (ok (remote_root ++ root_name)) (bytes "/") root_name matches
    item ← lift (of_tree (identified_item found TreeProblem.unreconciled_root))
    store_call b.outside Context.caller (set_task_drive_root task root_name item.id)
    return item.id

  unfoldable pub record_directory :
      Str → Str → Str → Str → Str → List RemoteItem → Act W E TreeProblem (Unit {0})
  record_directory task root logical_ parent name matches = do
    found ← make_if_missing (b.run_task root) (remote_path logical_) parent name matches
    item ← lift (of_tree (identified_item found TreeProblem.unreconciled_directory))
    store_call b.outside Context.caller (record_directory_drive_id task logical_ item.id)

  unfoldable pub ensure_directory : Str → Str → Directory → Act W E TreeProblem (Unit {0})
  ensure_directory task root d = do
    logical_ ← lift (of_logical (validate_logical_path d.logical_path false))
    let parent = if str_eq (dir logical_) (bytes ".") then bytes "/" else dir logical_
    matches ← list_named_directories (b.run_task root) parent (base logical_)
    require (not (is_ambiguous matches)) (Failure.found TreeProblem.ambiguous_directory)
    if is_empty (trim_space d.drive_id)
        then record_directory task root logical_ parent (base logical_) matches
        else require (is_persisted matches (trim_space d.drive_id))
            (Failure.found TreeProblem.moved_directory)

  unfoldable pub ensure_directories : Str → Str → List Directory → Act W E TreeProblem (Unit {0})
  ensure_directories task root [] = return tt
  ensure_directories task root (d ∷ ds) = do
    ensure_directory task root d
    ensure_directories task root ds

  -- The name of the task's folder: the recorded one, or a new one.
  unfoldable pub root_name_of : Str → Task → Act W E TreeProblem Str
  root_name_of task t = do
    require (not (is_empty (trim_space t.drive_root_name)) || is_task_component task)
        (Failure.found TreeProblem.unsafe_task)
    return (
        if is_empty (trim_space t.drive_root_name)
        then bytes "BaiduDriveMover-" ++ task
        else trim_space t.drive_root_name)

  unfoldable pub root_id_of : Str → Task → Str → Act W E TreeProblem Str
  root_id_of task t root_name =
      if is_empty (trim_space t.drive_root_id)
      then ensure_task_root task root_name
      else if is_empty t.drive_root_name
      then raise (Failure.found TreeProblem.unnamed_root)
      else return (trim_space t.drive_root_id)

  unfoldable pub ensure : Str → Act W E TreeProblem Str
  ensure task = do
    t ← query b.outside Context.caller (find_task task)
    root_name ← root_name_of task t
    root ← root_id_of task t root_name
    directories ← query b.outside Context.caller (λ db. ok (drive_directories task db))
    ensure_directories task root directories
    return root
