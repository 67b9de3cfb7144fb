-- ===== src/State/Safety/Root.antt =====
-- AuthorizeTaskRootCleanup keeps the safety invariant: it allows the cleanup of the task root only.
use mathlib.Core.Bool.{false≢true}
use baidu_drive_mover.Base.{
  ◌≡◌, refl, sym, subst, ◌∙◌, Bool, true, Bool-cases, inl, inr, ◌&&◌, &&-both, Result, ok, err,
  Result-cases, arith, is_empty, update_where,
}
use baidu_drive_mover.Text.{Str, str_eq, str_eq→eq, str_eq_refl}
use baidu_drive_mover.State.Model.{StateError}
use baidu_drive_mover.State.Db.{
  Db, CleanupObject, ◌>>=◌, in_tx, return, is_object, update_objects, scope_local_cache_file,
  scope_baidu_task_root,
}
use baidu_drive_mover.State.Invert.{get_then, expect_then, guard_then, return_lem}
use baidu_drive_mover.State.Evolves.{RowsEvolve-refl}
use baidu_drive_mover.State.Grants.{grants-allow}
use baidu_drive_mover.State.Quiet.{>>=-eq-ok}
use baidu_drive_mover.State.Cleanup.{allow_cleanup}
use baidu_drive_mover.State.CleanupRoot.{
  expected_baidu_task_root_path, update_task_root, allow_task_root, authorize_task_root_tx,
  read_back_root, authorize_task_root_cleanup,
}
use baidu_drive_mover.State.Safety.{GrantIsSafe, Change, Change-refl}

scopes_differ : scope_baidu_task_root ≡ scope_local_cache_file → ⊥
unfolding str_eq
scopes_differ h =
    false≢true
      (subst (λ s. str_eq scope_baidu_task_root s ≡ true) h (str_eq_refl scope_baidu_task_root))

abbrev takes : Str → Str → CleanupObject → Bool
takes task expected o = is_object task scope_baidu_task_root task o && str_eq o.object_path expected

abbrev allowed_root : Str → Str → Db → Db
allowed_root task expected db = record db {
  owned_objects = update_where (takes task expected) allow_cleanup db.owned_objects;
}

task_root_not_local :
    (task expected : Str) (o : CleanupObject)
    → takes task expected o ≡ true
    → o.scope ≡ scope_local_cache_file
    → ⊥
unfolding is_object
task_root_not_local task expected o h e =
    let (object, _) = &&-both _ _ h in
    let (_, rest) = &&-both _ _ object in
    let (scope, _) = &&-both _ _ rest in
    scopes_differ (str_eq→eq scope_baidu_task_root o.scope scope ∙ e)

allowed_root-Change : (task expected : Str) (db : Db) → Change db (allowed_root task expected db)
allowed_root-Change task expected db = record {
  evolves = RowsEvolve-refl db.files;
  safe = λ V s. record {
    linked = s.linked;
    granted =
        grants-allow (GrantIsSafe V (allowed_root task expected db)) _ _ db.owned_objects
          (λ o mine local. absurd (task_root_not_local task expected o mine local)) s.granted;
  };
}

update_task_root_facts :
    (task expected : Str) (db after : Db) (a : Unit {0})
    → update_task_root task expected db ≡ ok (a, after)
    → allowed_root task expected db ≡ after
unfolding update_task_root ◌>>=◌ return update_objects
update_task_root_facts task expected db after a h = cc

allow_task_root-Change :
    (task expected : Str) (o : CleanupObject) (db after : Db) (a : Unit {0})
    → allow_task_root task expected o db ≡ ok (a, after)
    → Change db after
unfolding allow_task_root
allow_task_root-Change task expected o db after a h = elim (Bool-cases (is_empty o.cleaned_at)) [
  | inl fresh ↦
      subst (Change db) (update_task_root_facts task expected db after a (rw fresh at h))
        (allowed_root-Change task expected db)
  | inr cleaned ↦
      let (_, kept) = return_lem _ (rw cleaned at h) in
      subst (Change db) (sym kept) (Change-refl db)
]

authorize_task_root_tx-Change :
    (task expected : Str) (db after : Db) (o : CleanupObject)
    → authorize_task_root_tx task expected db ≡ ok (o, after)
    → Change db after
unfolding authorize_task_root_tx
authorize_task_root_tx-Change task expected db after o h =
    let (_, h1) = guard_then _ _ _ (get_then _ h) in
    let (_, h2) = guard_then _ _ _ h1 in
    let (p, _, h3) = expect_then _ _ _ h2 in
    let (_, h4) = guard_then _ _ _ h3 in
    let (a, mid, allowed, h5) = >>=-eq-ok (allow_task_root task expected p) _ db h4 in
    let (_, kept) = return_lem _ h5 in
    subst (Change db) (sym kept) (allow_task_root-Change task expected p db mid a allowed)

pub read_back_root_same :
    (task expected : Str) (r : Db × Result StateError CleanupObject)
    → (read_back_root task expected r).0 ≡ r.0
unfolding read_back_root
read_back_root_same task expected (after, err e) = refl
read_back_root_same task expected (after, ok o) = ground arith

pub authorize_task_root_cleanup-Change :
    (task : Str) (db : Db) → Change db (authorize_task_root_cleanup task db).0
unfolding authorize_task_root_cleanup in_tx
authorize_task_root_cleanup-Change task db =
    elim (Result-cases (expected_baidu_task_root_path task)) [
      | inl (e, unsafe) ↦ rw (unsafe, authorize_task_root_cleanup) (Change-refl db)
      | inr (expected, safe) ↦
          rw
            (
              safe,
              authorize_task_root_cleanup,
              read_back_root_same task expected (in_tx (authorize_task_root_tx task expected) db),
            )
            (elim (Result-cases (authorize_task_root_tx task expected db)) [
              | inl (e, failed) ↦ rw (failed, in_tx) (Change-refl db)
              | inr ((o, after), ran) ↦
                  rw (ran, in_tx) (authorize_task_root_tx-Change task expected db after o ran)
            ])
    ]
