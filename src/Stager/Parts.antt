-- ===== src/Stager/Parts.antt =====
-- Lists of files in internal/staging/stager.go: what is selected from a batch and cut into pieces.
use baidu_drive_mover.Base.{
  ◌≡◌, refl, ap, ◌∙◌, ◌⊎◌, inl, inr, ℕ, zero, suc, ◌≤◌, ◌<◌, arith, Bool, false, Bool-cases, List,
  [], ◌∷◌, ◌++◌, length, take, drop, is_empty, All, All-map, All-take-drop, length-take,
  length-drop, take-append-drop, flatten, select,
}
use baidu_drive_mover.State.Model.{File}
use baidu_drive_mover.Stager.{pieces, chunk_size}

-- An element of a list.
abbrev pub OneOf : {A : Type 0} → A → List A → Type 0
OneOf a [] = ⊥
OneOf a (x ∷ xs) = (a ≡ x) ⊎ OneOf a xs

module _ {A : Type 0} where
  pub All-OneOf {κ} : (P : A → Type κ) (xs : List A) → ((x : A) → OneOf x xs → P x) → All P xs
  All-OneOf P [] h = tt
  All-OneOf P (x ∷ xs) h = (h x (inl refl), All-OneOf P xs (λ y m. h y (inr m)))

  pub All-select {κ} :
      (P : A → Type κ) (p : A → Bool) (xs : List A) → All P xs → All P (select p xs)
  unfolding select
  All-select P p [] h = tt
  All-select P p (x ∷ xs) h = elim (Bool-cases (p x)) [
    | inl hit ↦ rw hit (h.0, All-select P p xs h.1)
    | inr miss ↦ rw miss (All-select P p xs h.1)
  ]

  pub length-select : (p : A → Bool) (xs : List A) → length (select p xs) ≤ length xs
  unfolding select
  length-select p [] = omega arith
  length-select p (x ∷ xs) = ground (arith, length-select p xs)

  pub not_empty : (xs : List A) → is_empty xs ≡ false → 0 < length xs
  not_empty [] h = cc
  not_empty (x ∷ xs) h = omega arith

-- A split cuts a list of two files or more into pieces that are shorter than the list.
pub chunk_size_bounds :
    (limit count : ℕ) → 2 ≤ count → (0 < chunk_size limit count) × (chunk_size limit count < count)
unfolding chunk_size
chunk_size_bounds limit count h = ground arith

chunk_size_limit : (limit count : ℕ) → 0 < limit → limit < count → chunk_size limit count ≡ limit
unfolding chunk_size
chunk_size_limit limit count pos below = ground arith

pub pieces-All {κ} :
    (P : File → Type κ) (fuel size : ℕ) (files : List File)
    → All P files
    → All (λ c. All P c × (length c ≤ size)) (pieces fuel size files)
unfolding pieces
pieces-All P zero size files h = tt
pieces-All P (suc fuel) size files h = elim (Bool-cases (is_empty files)) [
  | inl none_left ↦ rw none_left tt
  | inr more ↦
      let (front, back) = All-take-drop P size files h in
      rw more ((front, length-take size files), pieces-All P fuel size (drop size files) back)
]

-- The pieces make up the list, in order.
pub flatten-pieces :
    (fuel size : ℕ) (files : List File)
    → 0 < size
    → length files ≤ fuel
    → flatten (pieces fuel size files) ≡ files
unfolding pieces
flatten-pieces zero size [] pos h = refl
flatten-pieces zero size (f ∷ fs) pos h = absurd (omega arith)
flatten-pieces (suc fuel) size [] pos h = refl
flatten-pieces (suc fuel) size (f ∷ fs) pos h =
    ap (λ l. take size (f ∷ fs) ++ l)
      (flatten-pieces fuel size (drop size (f ∷ fs)) pos (omega (arith, length-drop size (f ∷ fs))))
    ∙ take-append-drop size (f ∷ fs)

-- Whatever limit the service reports, transferSplit cuts a list of two files or more into pieces
-- that make up the list, in its order, and each of which is shorter than the list and, where the
-- limit is positive and below the number of files, no longer than the limit.
pub pieces_lem :
    (limit : ℕ) (files : List File)
    → 2 ≤ length files
    → (flatten (pieces (length files) (chunk_size limit (length files)) files) ≡ files)
      × All
          (λ c. (length c < length files) × (0 < limit → limit < length files → length c ≤ limit))
          (pieces (length files) (chunk_size limit (length files)) files)
pieces_lem limit files h =
    let (pos, short) = chunk_size_bounds limit (length files) h in
    (
      flatten-pieces (length files) (chunk_size limit (length files)) files pos (omega arith),
      All-map _ _ (pieces (length files) (chunk_size limit (length files)) files)
          (λ c b. (
            omega (arith, b.1),
            λ some_limit below.
                omega (arith, b.1, chunk_size_limit limit (length files) some_limit below),
          ))
          (pieces-All (λ _. Unit {0}) (length files) (chunk_size limit (length files)) files
            (All-OneOf _ files (λ _ _. tt))),
    )
