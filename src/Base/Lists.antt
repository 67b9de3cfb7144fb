-- ===== src/Base/Lists.antt =====
-- Lists measured by native numbers, and the row operations of a table.
use Prim.Native.Nat.{ℕ, zero, suc, ◌+◌, ◌-◌, ◌≤◌}
use mathlib.Core.Path.{◌≡◌, refl, ap, ◌∙◌, sym, subst}
use mathlib.Core.Bool.{Bool, true, false, ◌||◌}
use mathlib.Core.List.{List, [], ◌∷◌, ◌++◌}
use mathlib.Core.Option.{Option, none, some}
use native.Mathlib.Omega.{arith}
use mathlib.Core.Logic.{inl, inr}
use baidu_drive_mover.Base.Tests.{if◌then◌else◌, Bool-cases, some-eq}

module _ {ℓ} {A : Type ℓ} where
  abbrev pub length : List A → ℕ
  length [] = 0
  length (x ∷ xs) = suc (length xs)

  abbrev pub take : ℕ → List A → List A
  take zero xs = []
  take (suc n) [] = []
  take (suc n) (x ∷ xs) = x ∷ take n xs

  abbrev pub drop : ℕ → List A → List A
  drop zero xs = xs
  drop (suc n) [] = []
  drop (suc n) (x ∷ xs) = drop n xs

  abbrev pub is_empty : List A → Bool
  is_empty [] = true
  is_empty (_ ∷ _) = false

  -- Holds of every element; a predicate by recursion, which the tactics read.
  abbrev pub All {κ} : (A → Type κ) → List A → Type κ
  All P [] = Unit
  All P (x ∷ xs) = P x × All P xs

module _ {ℓ} {A : Type ℓ} where
  pub length-append : (xs ys : List A) → length (xs ++ ys) ≡ length xs + length ys
  length-append [] ys = omega arith
  length-append (x ∷ xs) ys = omega (arith, length-append xs ys)

  pub take-append-drop : (n : ℕ) (xs : List A) → take n xs ++ drop n xs ≡ xs
  take-append-drop zero xs = refl
  take-append-drop (suc n) [] = refl
  take-append-drop (suc n) (x ∷ xs) = ap (λ l. x ∷ l) (take-append-drop n xs)

  pub length-drop : (n : ℕ) (xs : List A) → length (drop n xs) ≡ length xs - n
  length-drop zero xs = omega arith
  length-drop (suc n) [] = omega arith
  length-drop (suc n) (x ∷ xs) = omega (arith, length-drop n xs)

  pub length-take : (n : ℕ) (xs : List A) → length (take n xs) ≤ n
  length-take zero xs = omega arith
  length-take (suc n) [] = omega arith
  length-take (suc n) (x ∷ xs) = omega (arith, length-take n xs)

  pub All-append {κ} : (P : A → Type κ) (xs ys : List A) → All P xs → All P ys → All P (xs ++ ys)
  All-append P [] ys hx hy = hy
  All-append P (x ∷ xs) ys hx hy = (hx.0, All-append P xs ys hx.1 hy)

  pub All-map {κ μ} :
      (P : A → Type κ) (Q : A → Type μ) (xs : List A) → ((x : A) → P x → Q x) → All P xs → All Q xs
  All-map P Q [] f h = tt
  All-map P Q (x ∷ xs) f h = (f x h.0, All-map P Q xs f h.1)

-- `SELECT … WHERE`, `COUNT(*) … WHERE`, `EXISTS`, the first row of a query, and `UPDATE … WHERE`.
module _ {ℓ} {A : Type ℓ} where
  unfoldable pub select : (A → Bool) → List A → List A
  select p [] = []
  select p (x ∷ xs) = if p x then x ∷ select p xs else select p xs

  unfoldable pub count_where : (A → Bool) → List A → ℕ
  count_where p [] = 0
  count_where p (x ∷ xs) = if p x then suc (count_where p xs) else count_where p xs

  unfoldable pub exists_where : (A → Bool) → List A → Bool
  exists_where p [] = false
  exists_where p (x ∷ xs) = p x || exists_where p xs

  unfoldable pub first_where : (A → Bool) → List A → Option A
  first_where p [] = none
  first_where p (x ∷ xs) = if p x then some x else first_where p xs

  unfoldable pub update_where : (A → Bool) → (A → A) → List A → List A
  update_where p f [] = []
  update_where p f (x ∷ xs) = (if p x then f x else x) ∷ update_where p f xs

-- `ORDER BY`: insertion keeps rows that compare equal in the order of the table.
module _ {ℓ} {A : Type ℓ} (le : A → A → Bool) where
  unfoldable pub insert_by : A → List A → List A
  insert_by x [] = x ∷ []
  insert_by x (y ∷ ys) = if le x y then x ∷ y ∷ ys else y ∷ insert_by x ys

  unfoldable pub order_by : List A → List A
  unfolding insert_by
  order_by [] = []
  order_by (x ∷ xs) = insert_by x (order_by xs)

-- The rows that a join finds for each row of a list.
module _ {ℓ κ} {A : Type ℓ} {B : Type κ} where
  unfoldable pub concat_map : (A → List B) → List A → List B
  concat_map f [] = []
  concat_map f (x ∷ xs) = f x ++ concat_map f xs

-- Sorting keeps what holds of every element.
module _ {ℓ κ} {A : Type ℓ} (le : A → A → Bool) (P : A → Type κ) where
  pub insert_by-All : (x : A) (xs : List A) → All P (insert_by le x xs) → P x × All P xs
  unfolding insert_by
  insert_by-All x [] h = h
  insert_by-All x (y ∷ ys) h = elim (Bool-cases (le x y)) [
    | inl below ↦ rw below at h
    | inr above ↦
        let h' = rw above at h in let (px, rest) = insert_by-All x ys h'.1 in (px, (h'.0, rest))
  ]

  pub order_by-All : (xs : List A) → All P (order_by le xs) → All P xs
  unfolding order_by
  order_by-All [] h = tt
  order_by-All (x ∷ xs) h =
      let (px, rest) = insert_by-All x (order_by le xs) h in (px, order_by-All xs rest)

  All-insert_by : (x : A) (xs : List A) → P x → All P xs → All P (insert_by le x xs)
  unfolding insert_by
  All-insert_by x [] h all = (h, tt)
  All-insert_by x (y ∷ ys) h all = elim (Bool-cases (le x y)) [
    | inl below ↦ rw below (h, all)
    | inr above ↦ rw above (all.0, All-insert_by x ys h all.1)
  ]

  pub All-order_by : (xs : List A) → All P xs → All P (order_by le xs)
  unfolding order_by
  All-order_by [] all = tt
  All-order_by (x ∷ xs) all = All-insert_by x (order_by le xs) all.0 (All-order_by xs all.1)

module _ {ℓ κ} {A : Type ℓ} (P : A → Type κ) where
  pub All-append_split : (xs ys : List A) → All P (xs ++ ys) → All P xs × All P ys
  All-append_split [] ys h = (tt, h)
  All-append_split (x ∷ xs) ys h = let (a, b) = All-append_split xs ys h.1 in ((h.0, a), b)

  -- What a query selects.
  pub select-All : (p : A → Bool) (xs : List A) → ((x : A) → p x ≡ true → P x) → All P (select p xs)
  unfolding select
  select-All p [] each = tt
  select-All p (x ∷ xs) each = elim (Bool-cases (p x)) [
    | inl hit ↦ rw hit (each x hit, select-All p xs each)
    | inr miss ↦ rw miss (select-All p xs each)
  ]

  -- What holds of the rows that a query selects holds of the first one.
  pub All-select_first :
      (p : A → Bool) (xs : List A) {r : A} → All P (select p xs) → first_where p xs ≡ some r → P r
  unfolding select first_where
  All-select_first p [] all h = cc
  All-select_first p (x ∷ xs) {r} all h = elim (Bool-cases (p x)) [
    | inl hit ↦
        let e : x ≡ r = some-eq (rw hit at h) in let all' = rw hit at all in subst P e all'.0
    | inr miss ↦ All-select_first p xs (rw miss at all) (rw miss at h)
  ]

-- The elements of a list of lists, in order.
module _ {ℓ} {A : Type ℓ} where
  abbrev pub flatten : List (List A) → List A
  flatten [] = []
  flatten (x ∷ xs) = x ++ flatten xs

  append_assoc : (xs ys zs : List A) → xs ++ ys ++ zs ≡ xs ++ (ys ++ zs)
  append_assoc [] ys zs = refl
  append_assoc (x ∷ xs) ys zs = ap (λ l. x ∷ l) (append_assoc xs ys zs)

  pub flatten-append : (xs ys : List (List A)) → flatten (xs ++ ys) ≡ flatten xs ++ flatten ys
  flatten-append [] ys = refl
  flatten-append (x ∷ xs) ys =
      ap (λ l. x ++ l) (flatten-append xs ys) ∙ sym (append_assoc x (flatten xs) (flatten ys))

  pub All-take-drop {κ} :
      (P : A → Type κ) (n : ℕ) (xs : List A) → All P xs → All P (take n xs) × All P (drop n xs)
  All-take-drop P zero xs h = (tt, h)
  All-take-drop P (suc n) [] h = (tt, tt)
  All-take-drop P (suc n) (x ∷ xs) h = let (a, b) = All-take-drop P n xs h.1 in ((h.0, a), b)

-- What an empty list says of the list that it was made from.
module _ {ℓ} {A : Type ℓ} where
  pub take-none : (n : ℕ) (xs : List A) → take (suc n) xs ≡ [] → xs ≡ []
  take-none n [] h = refl
  take-none n (x ∷ xs) h = cc

  insert_by-some : (le : A → A → Bool) (x : A) (xs : List A) → insert_by le x xs ≡ [] → ⊥
  unfolding insert_by
  insert_by-some le x [] h = cc
  insert_by-some le x (y ∷ ys) h = elim (Bool-cases (le x y)) [
    | inl below ↦ cc (rw below at h)
    | inr above ↦ cc (rw above at h)
  ]

  pub order_by-none : (le : A → A → Bool) (xs : List A) → order_by le xs ≡ [] → xs ≡ []
  unfolding order_by
  order_by-none le [] h = refl
  order_by-none le (x ∷ xs) h = absurd (insert_by-some le x (order_by le xs) h)

  pub select-none : (p : A → Bool) (xs : List A) → select p xs ≡ [] → count_where p xs ≡ 0
  unfolding select count_where
  select-none p [] h = refl
  select-none p (x ∷ xs) h = elim (Bool-cases (p x)) [
    | inl hit ↦ cc (rw hit at h)
    | inr miss ↦ rw miss (select-none p xs (rw miss at h))
  ]

-- A count of 0 says that no element passes the test.
module _ {ℓ} {A : Type ℓ} where
  pub count_where-none :
      (p : A → Bool) (xs : List A) → count_where p xs ≡ 0 → All (λ x. p x ≡ false) xs
  unfolding count_where
  count_where-none p [] h = tt
  count_where-none p (x ∷ xs) h = elim (Bool-cases (p x)) [
    | inl hit ↦ absurd (omega (arith, rw hit at h))
    | inr miss ↦ (miss, count_where-none p xs (rw miss at h))
  ]

-- The first row that a query finds after an `UPDATE` that does not change the query's answer.
module _ {ℓ} {A : Type ℓ} where
  pub first_where-update :
      (q p : A → Bool) (f : A → A) (xs : List A)
      → ((x : A) → q (f x) ≡ q x)
      → {r : A} → first_where q xs ≡ some r
      → first_where q (update_where p f xs) ≡ some (if p r then f r else r)
  unfolding first_where update_where
  first_where-update q p f [] same h = cc
  first_where-update q p f (x ∷ xs) same {r} h = elim (Bool-cases (q x)) [
    | inr miss ↦ ground (arith, same x, first_where-update q p f xs same (rw miss at h))
    | inl hit ↦ ground (arith, same x)
  ]

  pub All-found {κ} :
      (P : A → Type κ) (q : A → Bool) (xs : List A) {r : A}
      → All P xs
      → first_where q xs ≡ some r
      → P r
  unfolding first_where
  All-found P q [] all h = cc
  All-found P q (x ∷ xs) {r} all h = elim (Bool-cases (q x)) [
    | inl hit ↦ subst P (some-eq (rw hit at h)) all.0
    | inr miss ↦ All-found P q xs all.1 (rw miss at h)
  ]
