-- ===== src/Cleanup/Safe/Batch.antt =====
-- The cleanup of one batch by the engine of internal/cleanup deletes only what the rows permit.
use baidu_drive_mover.Base.{
  ◌≡◌, subst, List, [], ◌∷◌, some, All, All-found, is_empty, first_where, length, ℕ, none, ok, ◌==◌,
}
use baidu_drive_mover.Base.Effects.{
  Triple, bind, weaken, return-Triple, raise-Triple, expect-Triple, if-Triple, handle-Triple,
  lift-Triple, After-weaken,
}
use baidu_drive_mover.Text.{Str, str_eq}
use baidu_drive_mover.World.{
  At, Context, outside_call-Keeps, check_context-Keeps, store_call-Keeps, store_call-Triple,
  check_context, store_call,
}
use baidu_drive_mover.State.Model.{File}
use baidu_drive_mover.State.Db.{Db, CleanupObject, BatchRow}
use baidu_drive_mover.State.Cleanup.{
  CleanupBatch, mark_baidu_batch_cleanup_done, authorize_batch_cleanup, cleanup_candidates,
}
use baidu_drive_mover.State.Cleanup.Authorized.{HasOwnPath, authorize_batch_cleanup_lem}
use baidu_drive_mover.Cleanup
use baidu_drive_mover.Cleanup.Permits.{
  MayRemove, MayDelete, IsBeingCleaned, mark_local_cache_cleanup_done-IsBeingCleaned,
  IsAuthorized-IsBeingCleaned,
}
use baidu_drive_mover.Cleanup.{Engine, Problem, Summary}
use baidu_drive_mover.Cleanup.Safe.Guard.{
  IsGuarded, Fails, During, idle-During, forget, fail_with-Triple, local_failure-step,
  batch_failure-step, local_done-step, batch_done-step, authorize-step, complete-step, Permitted,
  delete_remote-Triple, check-Permitted, list-Permitted, query-Keeps,
}
use baidu_drive_mover.Baidu.Remote.{RemoteFile}

module _ {W E : Type 0} {e : Engine W E} {sha256_hex : Str → Str} {task : Str} {P : Db → W → Type 0}
    (g : IsGuarded e sha256_hex task P) where
  MayRemove-of :
      (db : Db) (b : CleanupBatch) (o : CleanupObject) (f : File)
      → IsBeingCleaned db task b
      → HasOwnPath task o
      → first_where (λ g. str_eq o.object_id g.file_id) b.files ≡ some f
      → MayRemove db task o.object_path
  MayRemove-of db b o f c own h =
      let h' =
        subst (λ fs. first_where (λ g. str_eq o.object_id g.file_id) fs ≡ some f) c.listed h in
      record {
        batch = b.batch_id;
        id = o.object_id;
        file = f;
        in_batch = h';
        deletable = All-found _ _ _ c.deletable h';
        exact = own;
      }

  module _ (b : CleanupBatch) where
    remove_local-Triple :
        (o : CleanupObject) (f : File)
        → HasOwnPath task o
        → first_where (λ g. str_eq o.object_id g.file_id) b.files ≡ some f
        → Triple
            (At (During P task b))
            (Cleanup.remove_local e b o f)
            (λ _. At (During P task b))
            (Fails P)
    unfolding Cleanup.remove_local
    remove_local-Triple o f own h =
        handle-Triple
          (forget g b (
            outside_call-Keeps (During P task b) (e.remove_temp_file o.object_path) (λ s p. (
              g.removed o.object_path s.db s.outside (MayRemove-of s.db b o f p.1 own h) p.0,
              p.1,
            ))))
          (λ _. forget g b (
            store_call-Keeps (During P task b) e.outside (idle-During g b) Context.caller _
              (λ now db w p. (
                local_done-step g b.task_id f.file_id now db w p.0,
                mark_local_cache_cleanup_done-IsBeingCleaned task b b.task_id f.file_id now db p.1,
              ))))
          (λ x. fail_with-Triple g _ x (local_failure-step g b.task_id f.file_id))

    clean_local-Triple :
        (o : CleanupObject)
        → HasOwnPath task o
        → Triple
            (At (During P task b))
            (Cleanup.clean_local e b o)
            (λ _. At (During P task b))
            (Fails P)
    unfolding Cleanup.clean_local
    clean_local-Triple o own =
        bind (forget g b (check_context-Keeps (During P task b) e.outside (idle-During g b))) λ _.
          bind
            {Q = λ f s.
              At (During P task b) s
              × (first_where (λ g. str_eq o.object_id g.file_id) b.files ≡ some f)}
            (expect-Triple _ _ (λ s f p h. (p, h)) (λ s p. p.0))
            λ f.
              if-Triple (is_empty o.cleaned_at) (λ _ s p. remove_local-Triple o f own p.1 s p.0)
                (λ _. return-Triple tt (λ s p. p.0))

    clean_locals-Triple :
        (os : List CleanupObject)
        → All (HasOwnPath task) os
        → Triple
            (At (During P task b))
            (Cleanup.clean_locals e b os)
            (λ _. At (During P task b))
            (Fails P)
    unfolding Cleanup.clean_locals
    clean_locals-Triple [] own = return-Triple tt (λ s p. p)
    clean_locals-Triple (o ∷ os) own =
        bind (clean_local-Triple o own.0) λ _. clean_locals-Triple os own.1

  module _ (b : CleanupBatch) where
    MayDelete-of :
        (db : Db) → IsBeingCleaned db task b → MayDelete db task b.baidu_object.object_path
    MayDelete-of db c =
        MayDelete.batch_directory b.batch_id c.directory c.deletable c.found c.allowed c.exact

    abbrev path_of : Str
    path_of = b.baidu_object.object_path

    mark_batch-Triple :
        Triple
          (At P)
          (store_call {D = Problem} e.outside Context.caller
            (mark_baidu_batch_cleanup_done b.task_id b.batch_id))
          (λ _. At P)
          (Fails P)
    mark_batch-Triple =
        store_call-Keeps P e.outside g.idle Context.caller _
          (batch_done-step g b.task_id b.batch_id)

    delete_batch_directory-Triple :
        (items : List RemoteFile)
        → Triple
            (At (Permitted P task path_of))
            (Cleanup.delete_batch_directory e b items)
            (λ _. At P)
            (Fails P)
    unfolding Cleanup.delete_batch_directory
    delete_batch_directory-Triple items =
        bind {Q = λ _. At (Permitted P task path_of)}
          (handle-Triple {R = λ _. At P} (lift-Triple _ (λ s a p h. p) (λ s x p. p.0))
            (λ _. return-Triple _ (λ s p. p))
            (λ x. fail_with-Triple g _ x (batch_failure-step g b.task_id b.batch_id)))
          λ _. bind (check-Permitted g path_of) λ _.
            bind (delete_remote-Triple g path_of _ (batch_failure-step g b.task_id b.batch_id))
              λ _. mark_batch-Triple

    clean_baidu-Triple :
        Triple (At (During P task b)) (Cleanup.clean_baidu e b) (λ _. At P) (Fails P)
    unfolding Cleanup.clean_baidu
    clean_baidu-Triple s p = body s (p.0, MayDelete-of s.db p.1)
      where
        body :
            Triple (At (Permitted P task path_of)) (Cleanup.clean_baidu e b) (λ _. At P) (Fails P)
        body = bind (check-Permitted g path_of) λ _.
            handle-Triple (list-Permitted g path_of path_of) delete_batch_directory-Triple (λ x.
              if-Triple (Cleanup.is_missing e x) (λ _ s p. mark_batch-Triple s p.0)
                (λ _ s p. fail_with-Triple g _ x (batch_failure-step g b.task_id b.batch_id) s p.0))

    clean_batch-Triple :
        All (HasOwnPath task) b.local_objects
        → Triple (At (During P task b)) (Cleanup.clean_batch e b) (λ _. At P) (Fails P)
    unfolding Cleanup.clean_batch
    clean_batch-Triple own = bind (lift-Triple _ (λ s a p h. p) (λ s x p. p.0)) λ _.
        bind
          (if-Triple (length b.local_objects == length b.files) (λ _. return-Triple tt (λ s p. p))
            (λ _. raise-Triple _ (λ s p. p.0)))
          λ _. bind (clean_locals-Triple b b.local_objects own) λ _.
            if-Triple (is_empty b.baidu_object.cleaned_at) (λ _. clean_baidu-Triple)
              (λ _. return-Triple tt (λ s p. p.0))

  -- What the authorization of a batch leaves behind.
  authorize_batch-Triple :
      (batch : Str)
      → Triple
          (At P)
          (store_call {D = Problem} e.outside Context.caller (authorize_batch_cleanup task batch))
          (λ b s. At (During P task b) s × All (HasOwnPath task) b.local_objects)
          (Fails P)
  authorize_batch-Triple batch =
      weaken
        (store_call-Triple P e.outside g.idle
          (λ b db. IsBeingCleaned db task b × All (HasOwnPath task) b.local_objects) Context.caller
          _ (authorize-step g batch)
          (λ now db w b p h.
            let (_, _, a) = authorize_batch_cleanup_lem task batch now db b h in
            (IsAuthorized-IsBeingCleaned _ task batch b a, a.own_paths)))
        (λ s p. p) (λ b s q. ((q.0, q.1.0), q.1.1)) (λ x s p. p)

  clean_candidate-Triple :
      (row : BatchRow) → Triple (At P) (Cleanup.clean_candidate e task row) (λ _. At P) (Fails P)
  unfolding Cleanup.clean_candidate
  clean_candidate-Triple row = bind (authorize_batch-Triple row.batch_id) λ b.
      bind {Q = λ _ s. At (During P task b) s × All (HasOwnPath task) b.local_objects} (still b)
        λ _.
          bind (λ s p. clean_batch-Triple b p.1 s p.0)
            λ _. bind (query-Keeps g _) λ _.
              bind
                (store_call-Keeps P e.outside g.idle Context.caller _ (complete-step g b.batch_id))
                λ _. return-Triple b (λ s p. p)
    where
      still :
          (b : CleanupBatch)
          → Triple
              (λ s. At (During P task b) s × All (HasOwnPath task) b.local_objects)
              (check_context {D = Problem} e.outside)
              (λ _ s. At (During P task b) s × All (HasOwnPath task) b.local_objects)
              (Fails P)
      still b s p =
          After-weaken
            (forget g b (check_context-Keeps (During P task b) e.outside (idle-During g b)) s p.0)
            (λ a s q. (q, p.1)) (λ x s q. q)

  clean_first-Triple :
      (rows : List BatchRow) → Triple (At P) (Cleanup.clean_first e task rows) (λ _. At P) (Fails P)
  unfolding Cleanup.clean_first
  clean_first-Triple [] = return-Triple none (λ s p. p)
  clean_first-Triple (row ∷ _) =
      bind (clean_candidate-Triple row) λ b. return-Triple (some b) (λ s p. p)

  pub next_batch-Triple :
      (left : ℕ) → Triple (At P) (Cleanup.next_batch e task left) (λ _. At P) (Fails P)
  unfolding Cleanup.next_batch
  next_batch-Triple left =
      bind (check_context-Keeps P e.outside g.idle)
        λ _. bind (query-Keeps g (λ db. ok (cleanup_candidates task left db))) clean_first-Triple
