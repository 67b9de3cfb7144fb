-- ===== src/State/Cleanup/Repeated.antt =====
-- MarkCleanupObjectDone (internal/state/cleanup_store.go) may be repeated, as it is after a crash
-- between the deletion and the end of the batch.
use baidu_drive_mover.Base.{
  suc, ◌≡◌, refl, ap, Bool, true, false, ◌&&◌, List, [], ◌∷◌, Bool-cases, inl, inr, is_empty,
  count_where, update_where,
}
use baidu_drive_mover.Text.{Str}
use baidu_drive_mover.State.Db.{Db, CleanupObject, is_object, exec_one, update_objects}
use baidu_drive_mover.State.Cleanup.{is_deletable_scope, mark_cleaned, mark_cleanup_object_done}

module _ {ℓ} {A : Type ℓ} (p : A → Bool) (f : A → A)
    (kept : (x : A) → p x ≡ true → p (f x) ≡ true) where
  count_where-update : (xs : List A) → count_where p (update_where p f xs) ≡ count_where p xs
  unfolding count_where update_where
  count_where-update [] = refl
  count_where-update (x ∷ xs) = elim (Bool-cases (p x)) [
    | inl hit ↦ rw (hit, kept x hit) (ap suc (count_where-update xs))
    | inr miss ↦ rw (miss, miss) (count_where-update xs)
  ]

  update_where-update :
      (g : A → A)
      → ((x : A) → p x ≡ true → g (f x) ≡ f x)
      → (xs : List A) → update_where p g (update_where p f xs) ≡ update_where p f xs
  unfolding update_where
  update_where-update g same [] = refl
  update_where-update g same (x ∷ xs) = elim (Bool-cases (p x)) [
    | inl hit ↦ rw (hit, kept x hit, same x hit) (ap (λ l. f x ∷ l) (update_where-update g same xs))
    | inr miss ↦ rw (miss, miss) (ap (λ l. x ∷ l) (update_where-update g same xs))
  ]

mark_cleaned-twice :
    (now later : Str) (o : CleanupObject)
    → is_empty now ≡ false
    → mark_cleaned later (mark_cleaned now o) ≡ mark_cleaned now o
mark_cleaned-twice now later o h = elim (Bool-cases (is_empty o.cleaned_at)) [
  | inl fresh ↦ rw (fresh, h) refl
  | inr cleaned ↦ rw (cleaned, cleaned) refl
]

-- The rows that MarkCleanupObjectDone updates.
abbrev takes : Str → Str → Str → CleanupObject → Bool
takes task scope id o = is_object task scope id o && o.cleanup_allowed

takes-mark_cleaned :
    (task scope id now : Str) (o : CleanupObject)
    → takes task scope id o ≡ true
    → takes task scope id (mark_cleaned now o) ≡ true
unfolding is_object
takes-mark_cleaned task scope id now o h = h

-- Marking an object as deleted a second time, at any later time, changes nothing and has the result
-- of the first time, which succeeds or fails: the time of the first deletion, which is not empty,
-- stays.
pub mark_cleanup_object_done-twice :
    (task scope id now later : Str) (db : Db)
    → is_empty now ≡ false
    → mark_cleanup_object_done task scope id later (mark_cleanup_object_done task scope id now db).0
      ≡ mark_cleanup_object_done task scope id now db
unfolding mark_cleanup_object_done exec_one update_objects
mark_cleanup_object_done-twice task scope id now later db h =
    elim (Bool-cases (is_deletable_scope scope)) [
      | inr no_ ↦ rw no_ refl
      | inl yes_ ↦
          let kept = takes-mark_cleaned task scope id now in
          rw
            (
              yes_,
              count_where-update (takes task scope id) (mark_cleaned now) kept db.owned_objects,
              update_where-update (takes task scope id) (mark_cleaned now) kept (mark_cleaned later)
                  (λ o _. mark_cleaned-twice now later o h) db.owned_objects,
            )
            refl
    ]
