-- ===== src/State/Quiet/Cleanup.antt =====
-- The methods of internal/state/cleanup_store.go that allow no cleanup, as changes of the store.
use baidu_drive_mover.Base.{◌≡◌, refl, true, Bool-cases, inl, inr, List, [], ◌∷◌, arith, ◌&&◌}
use baidu_drive_mover.Text.{Str}
use baidu_drive_mover.State.Model.{File, FileStatus}
use baidu_drive_mover.State.Db.{Db, is_file_of_batch}
use baidu_drive_mover.State.Evolves.{Evolves}
use baidu_drive_mover.State.Quiet.{
  Quiet, QuietAt, quiet, Quiet-refl, update_files-Quiet, update_objects-Quiet, in_tx-Quiet,
  exec_one-Quiet,
}
use baidu_drive_mover.State.Cleanup.{
  is_cleanup_pending, mark_cleaned, is_deletable_scope, backfill_local_object,
  backfill_local_objects, mark_cleanup_object_done, record_cleanup_object_failure,
  complete_batch_cleanup,
}

backfill_local_object-Quiet :
    (task now : Str) (f : File) (db : Db) → QuietAt (backfill_local_object task now f) db
unfolding backfill_local_object
backfill_local_object-Quiet task now f db = search quiet depth 9

pub backfill_local_objects-Quiet :
    (task now : Str) (fs : List File) (db : Db) → QuietAt (backfill_local_objects task now fs) db
unfolding backfill_local_objects
backfill_local_objects-Quiet task now [] db = search quiet
backfill_local_objects-Quiet task now (f ∷ fs) db =
    let later = backfill_local_objects-Quiet task now fs in
    search (quiet, backfill_local_object-Quiet, later) depth 9

pub mark_cleanup_object_done-Quiet :
    (task scope id now : Str) (db : Db) → Quiet db (mark_cleanup_object_done task scope id now db).0
unfolding mark_cleanup_object_done
mark_cleanup_object_done-Quiet task scope id now db = elim (Bool-cases (is_deletable_scope scope)) [
  | inl yes_ ↦ rw yes_ (
      exec_one-Quiet _ _ db
        (update_objects-Quiet db _ (mark_cleaned now) (λ o. (refl, refl, refl, refl))))
  | inr no_ ↦ rw no_ (Quiet-refl db)
]

pub record_cleanup_object_failure-Quiet :
    (task scope id message : Str) (db : Db)
    → Quiet db (record_cleanup_object_failure task scope id message db).0
unfolding record_cleanup_object_failure
record_cleanup_object_failure-Quiet task scope id message db =
    exec_one-Quiet _ _ db (update_objects-Quiet db _ _ (λ o. (refl, refl, refl, refl)))

done-Evolves :
    (task batch now : Str) (db : Db) (f : File)
    → (is_file_of_batch db task batch f && is_cleanup_pending f.status) ≡ true
    → Evolves f (record f { status = FileStatus.done; last_error = []; updated_at = now })
done-Evolves task batch now db f h = ground arith

pub complete_batch_cleanup-Quiet :
    (task batch now : Str) (db : Db) → Quiet db (complete_batch_cleanup task batch now db).0
unfolding complete_batch_cleanup
complete_batch_cleanup-Quiet task batch now db =
    in_tx-Quiet _ db (search (quiet, update_files-Quiet, done-Evolves) depth 10)
