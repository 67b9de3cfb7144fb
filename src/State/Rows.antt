-- ===== src/State/Rows.antt =====
-- Laws of the row operations: what an `UPDATE` by key does to the first row that a query by key
-- finds, for the files of internal/state.
use baidu_drive_mover.Base.{
  ◌⊎◌, some-eq, ◌<◌, ◌≡◌, refl, sym, ◌∙◌, inl, inr, Bool, true, List, [], ◌∷◌, ◌++◌, some, arith,
  if◌then◌else◌, Bool-cases, &&-both, count_where, first_where, update_where,
}
use baidu_drive_mover.Text.{Str, str_eq→eq, str_eq_refl}
use baidu_drive_mover.State.Model.{File}
use baidu_drive_mover.State.Db.{is_file}

pub is_file→keys :
    (task id : Str) (f : File) → is_file task id f ≡ true → (task ≡ f.task_id) × (id ≡ f.file_id)
unfolding is_file
is_file→keys task id f h =
    let (a, b) = &&-both _ _ h in (str_eq→eq task f.task_id a, str_eq→eq id f.file_id b)

pub is_file_self : (f : File) → is_file f.task_id f.file_id f ≡ true
unfolding is_file
is_file_self f = rw (str_eq_refl f.task_id, str_eq_refl f.file_id)

-- Rows with the same key answer the same queries by key.
pub is_file-same_key :
    (task id : Str) (f g : File)
    → g.task_id ≡ f.task_id
    → g.file_id ≡ f.file_id
    → is_file task id g ≡ is_file task id f
unfolding is_file
is_file-same_key task id f g a b = cc

pub first_where_sound {ℓ} :
    {A : Type ℓ} (p : A → Bool) (xs : List A) {r : A} → first_where p xs ≡ some r → p r ≡ true
unfolding first_where
first_where_sound p [] h = cc
first_where_sound p (x ∷ xs) h = elim (Bool-cases (p x)) [
  | inl e ↦ ground (arith)
  | inr e ↦ first_where_sound p xs (rw e at h)
]

pub first_where-append {ℓ} :
    {A : Type ℓ} (p : A → Bool) (xs ys : List A) {r : A}
    → first_where p xs ≡ some r
    → first_where p (xs ++ ys) ≡ some r
unfolding first_where
first_where-append p [] ys h = cc
first_where-append p (x ∷ xs) ys h = elim (Bool-cases (p x)) [
  | inl e ↦ rw e (rw e at h)
  | inr e ↦ rw e (first_where-append p xs ys (rw e at h))
]

-- A query that counts a row finds one.
pub first_where-count {ℓ} :
    {A : Type ℓ} (p q : A → Bool) (xs : List A)
    → ((x : A) → p x ≡ true → q x ≡ true)
    → 0 < count_where p xs
    → (r : A) × (first_where q xs ≡ some r)
unfolding first_where count_where
first_where-count p q [] imp h = absurd (omega arith)
first_where-count p q (x ∷ xs) imp h = elim (Bool-cases (q x)) [
  | inl e ↦ (x, rw e)
  | inr e ↦ elim (Bool-cases (p x)) [
    | inl f ↦ cc (imp x f)
    | inr f ↦ rw e (first_where-count p q xs imp (rw f at h))
  ]
]

-- An `UPDATE` of rows with one key, seen by a query by another key: nothing happens.
pub find-update_other :
    (task id t i : Str) (p : File → Bool) (f : File → File) (xs : List File)
    → ((x : File) → p x ≡ true → is_file task id x ≡ true)
    → ((x : File) → ((f x).task_id ≡ x.task_id) × ((f x).file_id ≡ x.file_id))
    → (task ≡ t → id ≡ i → ⊥)
    → first_where (is_file t i) (update_where p f xs) ≡ first_where (is_file t i) xs
unfolding first_where update_where
find-update_other task id t i p f [] in_key same other = refl
find-update_other task id t i p f (x ∷ xs) in_key same other =
    let rest = find-update_other task id t i p f xs in_key same other in
    elim (Bool-cases (p x)) [
      | inr kept ↦ rw (kept, rest)
      | inl touched ↦ elim (Bool-cases (is_file t i x)) [
        | inr miss ↦
            let miss' = is_file-same_key t i x (f x) (same x).0 (same x).1 ∙ miss in
            rw (touched, miss, miss', rest)
        | inl hit ↦
            let (a, b) = is_file→keys t i x hit in
            let (c, d) = is_file→keys task id x (in_key x touched) in
            absurd (other (c ∙ sym a) (d ∙ sym b))
      ]
    ]

-- The same seen by a query by that key: the row found is updated if the `WHERE` clause takes it.
pub find-update_same :
    (task id : Str) (p : File → Bool) (f : File → File) (xs : List File)
    → ((x : File) → ((f x).task_id ≡ x.task_id) × ((f x).file_id ≡ x.file_id))
    → {r : File} → first_where (is_file task id) xs ≡ some r
    → first_where (is_file task id) (update_where p f xs) ≡ some (if p r then f r else r)
unfolding first_where update_where
find-update_same task id p f [] same h = cc
find-update_same task id p f (x ∷ xs) same {r} h = elim (Bool-cases (is_file task id x)) [
  | inr miss ↦
      let miss' = is_file-same_key task id x (f x) (same x).0 (same x).1 ∙ miss in
      ground (arith, find-update_same task id p f xs same (rw miss at h))
  | inl hit ↦
      let hit' = is_file-same_key task id x (f x) (same x).0 (same x).1 ∙ hit in ground arith
]

-- A row that a query by key finds after an `UPDATE` that keeps the keys of the rows that it takes
-- comes from the row that the query found before.
pub find-updated :
    (t i : Str) (p : File → Bool) (f : File → File) (xs : List File)
    → ((x : File) → p x ≡ true → ((f x).task_id ≡ x.task_id) × ((f x).file_id ≡ x.file_id))
    → {g : File} → first_where (is_file t i) (update_where p f xs) ≡ some g
    → (r : File) × (first_where (is_file t i) xs ≡ some r) × (g ≡ (if p r then f r else r))
unfolding first_where update_where
find-updated t i p f [] same h = cc
find-updated t i p f (x ∷ xs) same {g} h = elim (Bool-cases (is_file t i x)) [
  | inl hit ↦ (
    x,
    rw hit refl,
    elim (Bool-cases (p x)) [
      | inl touched ↦
          let hit' = is_file-same_key t i x (f x) (same x touched).0 (same x touched).1 ∙ hit in
          rw touched (sym (some-eq (rw (touched, hit') at h)))
      | inr kept ↦ rw kept (sym (some-eq (rw (kept, hit) at h)))
    ],
  )
  | inr miss ↦ elim (Bool-cases (p x)) [
    | inl touched ↦
        let miss' = is_file-same_key t i x (f x) (same x touched).0 (same x touched).1 ∙ miss in
        let (r, found, e) = find-updated t i p f xs same (rw (touched, miss') at h) in
        (r, rw miss found, e)
    | inr kept ↦
        let (r, found, e) = find-updated t i p f xs same (rw (kept, miss) at h) in
        (r, rw miss found, e)
  ]
]

-- A row that a query finds after an `INSERT` was there before, or is the new one.
pub first_where-split {ℓ} :
    {A : Type ℓ} (p : A → Bool) (xs : List A) (x : A) {r : A}
    → first_where p (xs ++ x ∷ []) ≡ some r
    → (first_where p xs ≡ some r) ⊎ (x ≡ r)
unfolding first_where
first_where-split p [] x {r} h = elim (Bool-cases (p x)) [
  | inl hit ↦ inr (some-eq (rw hit at h))
  | inr miss ↦ cc (rw miss at h)
]
first_where-split p (y ∷ ys) x {r} h = elim (Bool-cases (p y)) [
  | inl hit ↦ inl (rw hit (rw hit at h))
  | inr miss ↦ elim (first_where-split p ys x (rw miss at h)) [
    | inl found ↦ inl (rw miss found)
    | inr same ↦ inr same
  ]
]
