-- ===== src/Base/Rows.antt =====
-- Lemmas on the rows of a table after an update, a selection or a search.
use Prim.Native.Nat.{ℕ, zero, suc, ◌≤◌}
use mathlib.Core.Path.{◌≡◌, refl, subst, ap}
use mathlib.Core.Bool.{Bool, true, false, ◌&&◌}
use mathlib.Core.List.{List, [], ◌∷◌, ◌++◌, map}
use mathlib.Core.Option.{none, some}
use native.Mathlib.Omega.{arith}
use mathlib.Core.Logic.{inl, inr}
use entryva.Base.Tests.{if◌then◌else◌, Bool-cases}
use entryva.Base.Lists.{
  All, All-mono, All-update_where, AtMostOne, any, count_where, find, length, select, take,
  update_where,
}

module _ {ℓ} {A : Type ℓ} (q : A → Bool) where
  none_of_update :
      (p : A → Bool) (f : A → A) (xs : List A)
      → ((x : A) → q x ≡ false → q (f x) ≡ false)
      → All (λ x. q x ≡ false) xs
      → All (λ x. q x ≡ false) (update_where p f xs)
  none_of_update p f xs k h = All-update_where (λ x. q x ≡ false) p f xs (λ x e _. k x e) h

  -- An update that makes no row satisfy `q` anew keeps it that at most one does.
  pub AtMostOne-update_where :
      (p : A → Bool) (f : A → A) (xs : List A)
      → ((x : A) → q x ≡ false → q (f x) ≡ false)
      → AtMostOne q xs
      → AtMostOne q (update_where p f xs)
  AtMostOne-update_where p f [] k h = tt
  AtMostOne-update_where p f (x ∷ xs) k h = (
    λ e. none_of_update p f xs k (h.0 (ground (arith, k x))),
    AtMostOne-update_where p f xs k h.1,
  )

  none_of_select :
      (p : A → Bool) (xs : List A)
      → All (λ x. q x ≡ false) xs
      → All (λ x. q x ≡ false) (select p xs)
  none_of_select p [] h = tt
  none_of_select p (x ∷ xs) h = ground (arith, none_of_select p xs h.1)

  pub AtMostOne-select : (p : A → Bool) (xs : List A) → AtMostOne q xs → AtMostOne q (select p xs)
  AtMostOne-select p [] h = tt
  AtMostOne-select p (x ∷ xs) h = elim (Bool-cases (p x)) [
    | inl e ↦ rw e (λ t. none_of_select p xs (h.0 t), AtMostOne-select p xs h.1)
    | inr e ↦ rw e (AtMostOne-select p xs h.1)
  ]

  find_and_none :
      (r : A → Bool) (xs : List A) → All (λ y. q y ≡ false) xs → find (λ y. q y && r y) xs ≡ none
  find_and_none r [] h = refl
  find_and_none r (x ∷ xs) h = ground (arith, find_and_none r xs h.1)

  -- Where at most one row satisfies `q`, one that was found is the only one.
  pub unique_row :
      (r : A → Bool) (xs : List A) (x : A)
      → AtMostOne q xs
      → find (λ y. q y && r y) xs ≡ some x
      → All (λ y. q y ≡ true → y ≡ x) xs
  unique_row r [] x h e = tt
  unique_row r (y ∷ ys) x h e = elim (Bool-cases (q y)) [
    | inl t ↦ elim (Bool-cases (r y)) [
      | inl u ↦
          let same : y ≡ x = ground arith in
          (
            λ _. same,
            All-mono (λ z. q z ≡ false) (λ z. q z ≡ true → z ≡ x) ys (λ z f g. absurd (cc)) (h.0 t),
          )
      | inr u ↦ absurd (ground (arith, find_and_none r ys (h.0 t)))
    ]
    | inr t ↦ (λ g. absurd (cc), unique_row r ys x h.1 (ground arith))
  ]

module _ {ℓ} {A : Type ℓ} where
  -- An update that does not touch what a query asks for keeps the count.
  pub count_where-update_where :
      (q p : A → Bool) (f : A → A) (xs : List A)
      → ((x : A) → q (f x) ≡ q x)
      → count_where q (update_where p f xs) ≡ count_where q xs
  count_where-update_where q p f [] k = refl
  count_where-update_where q p f (x ∷ xs) k =
      ground (arith, k x, count_where-update_where q p f xs k)

  pub find_head : (p : A → Bool) (x : A) (xs : List A) → p x ≡ true → find p (x ∷ xs) ≡ some x
  find_head p x xs h = rw h

pub select-cons {ℓ} :
    {A : Type ℓ} (p : A → Bool) (x : A) (xs : List A)
    → select p (x ∷ xs) ≡ (if p x then x ∷ select p xs else select p xs)
select-cons p x xs = refl

module _ {ℓ} {A : Type ℓ} (p : A → Bool) (f : A → A) where
  -- An update that matches no row changes nothing.
  pub update_where_none : (xs : List A) → count_where p xs ≡ 0 → update_where p f xs ≡ xs
  update_where_none [] h = refl
  update_where_none (x ∷ xs) h = elim (Bool-cases (p x)) [
    | inl e ↦ absurd (ground arith)
    | inr e ↦ rw e (ap (◌∷◌ x) (update_where_none xs (rw e at h)))
  ]

  -- An update does not show among the rows that it does not match.
  pub select-update_where :
      (q : A → Bool) (xs : List A)
      → ((x : A) → p x ≡ true → (q x ≡ false) × (q (f x) ≡ false))
      → select q (update_where p f xs) ≡ select q xs
  select-update_where q [] k = refl
  select-update_where q (x ∷ xs) k = elim (Bool-cases (p x)) [
    | inl e ↦ let (old, new) = k x e in rw e (rw new (rw old (select-update_where q xs k)))
    | inr e ↦ rw e (ground (arith, select-update_where q xs k))
  ]

  -- What a query finds after an update that does not touch what it asks for.
  pub find-update_where :
      (q : A → Bool) (xs : List A) (x : A)
      → ((y : A) → q (f y) ≡ q y)
      → find q xs ≡ some x
      → find q (update_where p f xs) ≡ some (if p x then f x else x)
  find-update_where q [] x k h = absurd (cc)
  find-update_where q (y ∷ xs) x k h = elim (Bool-cases (q y)) [
    | inl e ↦
        let same : y ≡ x = ground arith in
        subst (λ z. find q (update_where p f (y ∷ xs)) ≡ some (if p z then f z else z)) same
          (ground (arith, k y))
    | inr e ↦ let later = find-update_where q xs x k (ground arith) in ground (arith, k y, later)
  ]

module _ {ℓ} {A : Type ℓ} where
  pub All-select {κ ι} :
      (P : A → Type κ) (Q : A → Type ι) (p : A → Bool) (xs : List A)
      → ((x : A) → P x → p x ≡ true → Q x)
      → All P xs
      → All Q (select p xs)
  All-select P Q p [] k h = tt
  All-select P Q p (x ∷ xs) k h = elim (Bool-cases (p x)) [
    | inl e ↦ rw e (k x h.0 e, All-select P Q p xs k h.1)
    | inr e ↦ rw e (All-select P Q p xs k h.1)
  ]

  pub length-snoc : (xs : List A) (x : A) → length (xs ++ x ∷ []) ≡ suc (length xs)
  length-snoc [] x = refl
  length-snoc (y ∷ ys) x = ap suc (length-snoc ys x)

pub length-map {ℓ κ} :
    {A : Type ℓ} {B : Type κ} (f : A → B) (xs : List A) → length (map f xs) ≡ length xs
length-map f [] = refl
length-map f (x ∷ xs) = ap suc (length-map f xs)

pub map-map {ℓ κ ι} :
    {A : Type ℓ} {B : Type κ} {C : Type ι} (g : B → C) (f : A → B) (xs : List A)
    → map (λ x. g (f x)) xs ≡ map g (map f xs)
map-map g f [] = refl
map-map g f (x ∷ xs) = ap (◌∷◌ (g (f x))) (map-map g f xs)

pub nil_of_length {ℓ} : {A : Type ℓ} (xs : List A) → length xs ≡ 0 → xs ≡ []
nil_of_length [] h = refl
nil_of_length (x ∷ xs) h = absurd (ground arith)

module _ {ℓ} {A : Type ℓ} where
  pub take_all : (n : ℕ) (xs : List A) → length xs ≤ n → take n xs ≡ xs
  take_all zero [] h = refl
  take_all zero (x ∷ xs) h = absurd (omega arith)
  take_all (suc n) [] h = refl
  take_all (suc n) (x ∷ xs) h = ap (◌∷◌ x) (take_all n xs (omega arith))

  pub select-All : (p : A → Bool) (xs : List A) → All (λ x. p x ≡ true) xs → select p xs ≡ xs
  select-All p [] h = refl
  select-All p (x ∷ xs) h = rw (h.0) (ap (◌∷◌ x) (select-All p xs h.1))

  pub unique_found :
      (p : A → Bool) (xs : List A) (x : A)
      → AtMostOne p xs
      → find p xs ≡ some x
      → All (λ y. p y ≡ true → y ≡ x) xs
  unique_found p [] x h e = tt
  unique_found p (y ∷ ys) x h e = elim (Bool-cases (p y)) [
    | inl t ↦
        let same : y ≡ x = ground arith in
        (
          λ _. same,
          All-mono (λ z. p z ≡ false) (λ z. p z ≡ true → z ≡ x) ys (λ z f g. absurd (cc)) (h.0 t),
        )
    | inr t ↦ (λ g. absurd (cc), unique_found p ys x h.1 (ground arith))
  ]

  -- A row that was found is among the selected rows, if it is one of them.
  pub any-select :
      (p l w : A → Bool) (xs : List A) (x : A)
      → find p xs ≡ some x
      → l x ≡ true
      → w x ≡ true
      → any w (select l xs) ≡ true
  any-select p l w [] x f h k = absurd (cc)
  any-select p l w (y ∷ ys) x f h k = elim (Bool-cases (p y)) [
    | inl t ↦ let same : y ≡ x = ground arith in ground (arith, ap l same, ap w same)
    | inr t ↦ let later = any-select p l w ys x (ground arith) h k in ground arith
  ]

  pub All-trivial : (xs : List A) → All (λ x. Unit {0}) xs
  All-trivial [] = tt
  All-trivial (x ∷ xs) = (tt, All-trivial xs)

-- After an update that makes a row no longer match, no row matches.
pub count_where-updated {ℓ} :
    {A : Type ℓ} (p : A → Bool) (f : A → A) (xs : List A)
    → ((x : A) → p x ≡ true → p (f x) ≡ false)
    → count_where p (update_where p f xs) ≡ 0
count_where-updated p f [] k = refl
count_where-updated p f (x ∷ xs) k = elim (Bool-cases (p x)) [
  | inl e ↦ rw e (rw (k x e) (count_where-updated p f xs k))
  | inr e ↦ rw e (rw e (count_where-updated p f xs k))
]
