-- ===== src/Base/Lists.antt =====
-- Lists measured by native numbers, the queries that the tables answer, and their lemmas.
use Prim.Native.Nat.{ℕ, zero, suc}
use mathlib.Core.Path.{◌≡◌, refl, subst}
use mathlib.Core.Bool.{Bool, true, false, ◌&&◌, ◌||◌}
use mathlib.Core.List.{List, [], ◌∷◌, Memᴰ}
use mathlib.Core.Option.{Option, none, some}
use native.Mathlib.Omega.{arith}
use mathlib.Core.Logic.{inl, inr}
use entryva.Base.Tests.{if◌then◌else◌, Bool-cases}

module _ {ℓ} {A : Type ℓ} where
  abbrev pub length : List A → ℕ
  length [] = 0
  length (x ∷ xs) = suc (length xs)

  abbrev pub take : ℕ → List A → List A
  take zero xs = []
  take (suc n) [] = []
  take (suc n) (x ∷ xs) = x ∷ take n xs

  -- `Array.prototype.some`
  abbrev pub any : (A → Bool) → List A → Bool
  any p [] = false
  any p (x ∷ xs) = p x || any p xs

  -- `Array.prototype.find`, and the first row of a table that satisfies a query.
  abbrev pub find : (A → Bool) → List A → Option A
  find p [] = none
  find p (x ∷ xs) = if p x then some x else find p xs

  -- `Array.prototype.filter`, and the rows of a table that satisfy a query.
  abbrev pub select : (A → Bool) → List A → List A
  select p [] = []
  select p (x ∷ xs) = if p x then x ∷ select p xs else select p xs

  -- An update of every row that satisfies a query.
  abbrev pub update_where : (A → Bool) → (A → A) → List A → List A
  update_where p f [] = []
  update_where p f (x ∷ xs) = (if p x then f x else x) ∷ update_where p f xs

  -- The number of rows that satisfy a query.
  abbrev pub count_where : (A → Bool) → List A → ℕ
  count_where p [] = 0
  count_where p (x ∷ xs) = if p x then suc (count_where p xs) else count_where p xs

-- A predicate of every element.
abbrev pub All {ℓ κ} : {A : Type ℓ} → (A → Type κ) → List A → Type κ
All P [] = Unit
All P (x ∷ xs) = P x × All P xs

-- A relation of the rows of a table to the rows that stand in their places later.
abbrev pub Zip {ℓ} : {A : Type ℓ} → (A → A → Type 0) → List A → List A → Type 0
Zip R [] [] = Unit
Zip R [] (y ∷ ys) = ⊥
Zip R (x ∷ xs) [] = ⊥
Zip R (x ∷ xs) (y ∷ ys) = R x y × Zip R xs ys

pub Zip-update_where {ℓ} :
    {A : Type ℓ} (R : A → A → Type 0) (p : A → Bool) (f : A → A) (xs : List A)
    → ((x : A) → R x (if p x then f x else x))
    → Zip R xs (update_where p f xs)
Zip-update_where R p f [] k = tt
Zip-update_where R p f (x ∷ xs) k = (k x, Zip-update_where R p f xs k)

module _ {ℓ} {A : Type ℓ} (p : A → Bool) where
  pub mem_of_any : (xs : List A) → any p xs ≡ true → (x : A) × Memᴰ x xs × (p x ≡ true)
  mem_of_any [] h = absurd (cc)
  mem_of_any (x ∷ xs) h = elim (Bool-cases (p x)) [
    | inl here ↦ (x, Memᴰ.head refl, here)
    | inr miss ↦ let (y, m, e) = mem_of_any xs (ground arith) in (y, Memᴰ.tail m, e)
  ]

  pub not_of_any : (xs : List A) (x : A) → any p xs ≡ false → Memᴰ x xs → p x ≡ false
  not_of_any [] x h m = elim m [ ]
  not_of_any (y ∷ xs) x h (Memᴰ.head e) = rw e (ground arith)
  not_of_any (y ∷ xs) x h (Memᴰ.tail m) = not_of_any xs x (ground arith) m

  pub find_sound : (xs : List A) (x : A) → find p xs ≡ some x → p x ≡ true
  find_sound [] x h = cc
  find_sound (y ∷ xs) x h = ground (arith, find_sound xs x)

  pub mem_of_find : (xs : List A) (x : A) → find p xs ≡ some x → Memᴰ x xs
  mem_of_find [] x h = absurd (cc)
  mem_of_find (y ∷ xs) x h = elim (Bool-cases (p y)) [
    | inl here ↦ Memᴰ.head (ground arith)
    | inr miss ↦ Memᴰ.tail (mem_of_find xs x (ground arith))
  ]

  pub not_of_find : (xs : List A) (x : A) → find p xs ≡ none → Memᴰ x xs → p x ≡ false
  not_of_find [] x h m = elim m [ ]
  not_of_find (y ∷ xs) x h (Memᴰ.head e) = rw e (ground arith)
  not_of_find (y ∷ xs) x h (Memᴰ.tail m) = not_of_find xs x (ground arith) m

  pub none_of_find : (xs : List A) → find p xs ≡ none → All (λ x. p x ≡ false) xs
  none_of_find [] h = tt
  none_of_find (x ∷ xs) h = elim (Bool-cases (p x)) [
    | inl here ↦ absurd (ground arith)
    | inr miss ↦ (miss, none_of_find xs (rw miss at h))
  ]

-- At most one row satisfies a query.
abbrev pub AtMostOne {ℓ} : {A : Type ℓ} → (A → Bool) → List A → Type ℓ
AtMostOne q [] = Unit
AtMostOne q (x ∷ xs) = (q x ≡ true → All (λ y. q y ≡ false) xs) × AtMostOne q xs

-- What is kept of a row that was found.
abbrev pub keep {ℓ} : {A : Type ℓ} → (A → Bool) → Option A → Option A
keep p none = none
keep p (some x) = if p x then some x else none

module _ {ℓ} {A : Type ℓ} (p q : A → Bool) where
  -- A query that asks for `p` among other things finds the same row in the rows that satisfy `p`.
  pub find-select : (xs : List A) → find (λ x. p x && q x) (select p xs) ≡ find (λ x. p x && q x) xs
  find-select [] = refl
  find-select (x ∷ xs) = ground (arith, find-select xs)

  find-select-none : (xs : List A) → All (λ y. q y ≡ false) xs → find q (select p xs) ≡ none
  find-select-none [] h = refl
  find-select-none (x ∷ xs) h = ground (arith, find-select-none xs h.1)

  pub keep-find : (xs : List A) → AtMostOne q xs → keep p (find q xs) ≡ find q (select p xs)
  keep-find [] h = refl
  keep-find (x ∷ xs) h = elim (Bool-cases (q x)) [
    | inl e ↦ ground (arith, find-select-none xs (h.0 e))
    | inr e ↦ ground (arith, keep-find xs h.1)
  ]

module _ {ℓ} {A : Type ℓ} where
  pub All-find {κ} :
      (P : A → Type κ) (p : A → Bool) (xs : List A) (x : A) → All P xs → find p xs ≡ some x → P x
  All-find P p [] x h e = absurd (cc)
  All-find P p (y ∷ xs) x h e = elim (Bool-cases (p y)) [
    | inl here ↦ let same : y ≡ x = ground arith in subst P same h.0
    | inr miss ↦ All-find P p xs x h.1 (rw miss at e)
  ]

  pub All-update_where {κ} :
      (P : A → Type κ) (p : A → Bool) (f : A → A) (xs : List A)
      → ((x : A) → P x → p x ≡ true → P (f x))
      → All P xs
      → All P (update_where p f xs)
  All-update_where P p f [] k h = tt
  All-update_where P p f (x ∷ xs) k h = elim (Bool-cases (p x)) [
    | inl e ↦ rw e (k x h.0 e, All-update_where P p f xs k h.1)
    | inr e ↦ rw e (h.0, All-update_where P p f xs k h.1)
  ]

  -- What an update makes of each row, changed or not.
  pub All-map_where {κ ι} :
      (P : A → Type κ) (Q : A → Type ι) (p : A → Bool) (f : A → A) (xs : List A)
      → ((x : A) → P x → Q (if p x then f x else x))
      → All P xs
      → All Q (update_where p f xs)
  All-map_where P Q p f [] k h = tt
  All-map_where P Q p f (x ∷ xs) k h = (k x h.0, All-map_where P Q p f xs k h.1)

  pub All-mono {κ ι} :
      (P : A → Type κ) (Q : A → Type ι) (xs : List A) → ((x : A) → P x → Q x) → All P xs → All Q xs
  All-mono P Q [] k h = tt
  All-mono P Q (x ∷ xs) k h = (k x h.0, All-mono P Q xs k h.1)

  pub count_where_none :
      (p : A → Bool) (xs : List A) → All (λ x. p x ≡ false) xs → count_where p xs ≡ 0
  count_where_none p [] h = refl
  count_where_none p (x ∷ xs) h = rw (h.0) (count_where_none p xs h.1)

  pub any_none : (p : A → Bool) (xs : List A) → any p xs ≡ false → All (λ x. p x ≡ false) xs
  any_none p [] h = tt
  any_none p (x ∷ xs) h = (ground arith, any_none p xs (ground arith))
