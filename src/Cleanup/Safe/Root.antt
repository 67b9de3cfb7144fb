-- ===== src/Cleanup/Safe/Root.antt =====
-- The cleanup of a task's root by the engine of internal/cleanup deletes only what the rows permit.
use baidu_drive_mover.Base.{◌≡◌, List, is_empty, true, false}
use baidu_drive_mover.Base.Effects.{Triple, bind, return-Triple, if-Triple, handle-Triple}
use baidu_drive_mover.Text.{Str}
use baidu_drive_mover.World.{
  At, Context, check_context-Keeps, store_call-Keeps, store_call-Triple, store_call,
}
use baidu_drive_mover.State.Db.{Db, CleanupObject}
use baidu_drive_mover.State.CleanupRoot.{
  mark_baidu_task_root_cleanup_done, authorize_task_root_cleanup,
}
use baidu_drive_mover.Cleanup
use baidu_drive_mover.Cleanup.Permits.{MayDelete}
use baidu_drive_mover.Cleanup.{Engine, Problem, Summary}
use baidu_drive_mover.State.CleanupRoot.Authorized.{authorize_task_root_cleanup_lem}
use baidu_drive_mover.Cleanup.Safe.Guard.{
  IsGuarded, Fails, fail_with-Triple, root_failure-step, root_done-step, authorize_root-step,
  Permitted, delete_remote-Triple, check-Permitted, list-Permitted, query-Keeps,
}
use baidu_drive_mover.Baidu.Remote.{RemoteFile}

module _ {W E : Type 0} {e : Engine W E} {sha256_hex : Str → Str} {task : Str} {P : Db → W → Type 0}
    (g : IsGuarded e sha256_hex task P) where
  mark_root-Triple :
      Triple
        (At P)
        (store_call {D = Problem} e.outside Context.caller (mark_baidu_task_root_cleanup_done task))
        (λ _. At P)
        (Fails P)
  mark_root-Triple = store_call-Keeps P e.outside g.idle Context.caller _ (root_done-step g task)

  delete_root-Triple :
      (o : CleanupObject) (items : List RemoteFile)
      → Triple
          (At (Permitted P task o.object_path))
          (Cleanup.delete_root e task o items)
          (λ _. At P)
          (Fails P)
  unfolding Cleanup.delete_root
  delete_root-Triple o items =
      bind {Q = λ _. At (Permitted P task o.object_path)}
        (if-Triple (is_empty items) (λ _. return-Triple tt (λ s p. p))
          (λ _ s p. fail_with-Triple g _ _ (root_failure-step g task) s p.0))
        λ _. bind (check-Permitted g o.object_path) λ _.
          bind (delete_remote-Triple g o.object_path _ (root_failure-step g task))
            λ _. bind mark_root-Triple λ _. return-Triple true (λ s p. p)

  clean_root-Triple :
      (o : CleanupObject)
      → Triple
          (At (Permitted P task o.object_path))
          (Cleanup.clean_root e task o)
          (λ _. At P)
          (Fails P)
  unfolding Cleanup.clean_root Cleanup.root_missing
  clean_root-Triple o = bind (check-Permitted g o.object_path) λ _.
      handle-Triple (list-Permitted g o.object_path o.object_path) (delete_root-Triple o) (λ x.
        if-Triple (Cleanup.is_missing e x)
          (λ _ s p. (bind mark_root-Triple λ _. return-Triple true (λ s p. p)) s p.0)
          (λ _ s p. fail_with-Triple g _ x (root_failure-step g task) s p.0))

  authorize_root-Triple : Triple (At P) (Cleanup.authorize_root e task) (λ _. At P) (Fails P)
  unfolding Cleanup.authorize_root
  authorize_root-Triple =
      bind
        (store_call-Triple P e.outside g.idle
          (λ o db. is_empty o.cleaned_at ≡ true → MayDelete db task o.object_path) Context.caller
          (λ _. authorize_task_root_cleanup task) (λ _. authorize_root-step g)
          (λ _ db w o p h fresh.
            let (_, exact, finished, _) = authorize_task_root_cleanup_lem task db o h fresh in
            MayDelete.task_root exact finished))
        λ o.
          if-Triple (is_empty o.cleaned_at) (λ fresh s p. clean_root-Triple o s (p.0, p.1 fresh))
            (λ _. return-Triple true (λ s p. p.0))

  pub after_loop-Triple : Triple (At P) (Cleanup.after_loop e task) (λ _. At P) (Fails P)
  unfolding Cleanup.after_loop Cleanup.cleanup_task_root
  after_loop-Triple = bind (check_context-Keeps P e.outside g.idle) λ _.
      bind (check_context-Keeps P e.outside g.idle) λ _. bind (query-Keeps g _) λ candidate.
        if-Triple candidate (λ _. authorize_root-Triple) (λ _. return-Triple false (λ s p. p))
