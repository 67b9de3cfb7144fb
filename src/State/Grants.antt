-- ===== src/State/Grants.antt =====
-- The owned objects whose cleanup is allowed, and the operations that leave this list as it is.
use baidu_drive_mover.Base.{
  ◌≡◌, refl, Bool, true, false, List, [], ◌∷◌, ◌++◌, if◌then◌else◌, Bool-cases, inl, inr,
  update_where, All,
}
use baidu_drive_mover.Text.{Str}
use baidu_drive_mover.State.Db.{CleanupObject}

-- The keys (task, scope, object) of the rows with `cleanup_allowed`.
unfoldable pub grants : List CleanupObject → List (Str × Str × Str)
grants [] = []
grants (o ∷ os) =
    if o.cleanup_allowed then (o.task_id, o.scope, o.object_id) ∷ grants os else grants os

-- A row that keeps its key and its permission.
abbrev pub SameGrant : CleanupObject → CleanupObject → Type 0
SameGrant o p =
    (p.task_id ≡ o.task_id)
    × (p.scope ≡ o.scope)
    × (p.object_id ≡ o.object_id)
    × (p.cleanup_allowed ≡ o.cleanup_allowed)

pub grants-update :
    (p : CleanupObject → Bool) (f : CleanupObject → CleanupObject) (os : List CleanupObject)
    → ((o : CleanupObject) → SameGrant o (f o))
    → grants (update_where p f os) ≡ grants os
unfolding grants update_where
grants-update p f [] same = refl
grants-update p f (o ∷ os) same = elim (Bool-cases (p o)) [
  | inr kept ↦ rw (kept, grants-update p f os same)
  | inl touched ↦ let s = same o in rw (touched, s.0, s.1, s.2, s.3, grants-update p f os same)
]

pub grants-append :
    (os : List CleanupObject) (o : CleanupObject)
    → o.cleanup_allowed ≡ false
    → grants (os ++ o ∷ []) ≡ grants os
unfolding grants
grants-append [] o h = rw h
grants-append (x ∷ os) o h = rw (grants-append os o h)

module _ {ℓ κ} {A : Type ℓ} (P : A → Type κ) (x : A) (xs : List A) where
  All-if : (b : Bool) → P x → All P xs → All P (if b then x ∷ xs else xs)
  All-if true h rest = (h, rest)
  All-if false h rest = rest

  All-if_tail : (b : Bool) → All P (if b then x ∷ xs else xs) → All P xs
  All-if_tail true h = h.1
  All-if_tail false h = h

  All-if_swap :
      (ys : List A) (b : Bool)
      → All P (if b then x ∷ xs else xs)
      → All P ys
      → All P (if b then x ∷ ys else ys)
  All-if_swap ys true h rest = (h.0, rest)
  All-if_swap ys false h rest = rest

-- After rows are allowed, every grant is an old one or belongs to a row that was allowed.
pub grants-allow :
    (P : Str × Str × Str → Type 0) (p : CleanupObject → Bool) (f : CleanupObject → CleanupObject)
    (os : List CleanupObject)
    → ((o : CleanupObject) → p o ≡ true → P ((f o).task_id, (f o).scope, (f o).object_id))
    → All P (grants os)
    → All P (grants (update_where p f os))
unfolding grants update_where
grants-allow P p f [] new old = tt
grants-allow P p f (o ∷ os) new old =
    let rest = grants-allow P p f os new (All-if_tail P _ _ o.cleanup_allowed old) in
    elim (Bool-cases (p o)) [
      | inl touched ↦ rw touched (All-if P _ _ (f o).cleanup_allowed (new o touched) rest)
      | inr kept ↦ rw kept (All-if_swap P _ _ _ o.cleanup_allowed old rest)
    ]
