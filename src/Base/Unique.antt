-- ===== src/Base/Unique.antt =====
-- Lemmas on queries that at most one row of a table satisfies.
use Prim.Native.Nat.{◌<◌}
use mathlib.Core.Path.{◌≡◌, refl, sym, subst, ◌∙◌}
use mathlib.Core.Bool.{Bool, true, false}
use mathlib.Core.List.{List, [], ◌∷◌, Memᴰ}
use native.Mathlib.Omega.{arith}
use mathlib.Core.Logic.{inl, inr}
use entryva.Base.Tests.{Bool-cases}
use entryva.Base.Lists.{All, All-mono, AtMostOne, count_where, update_where}

pub All-mem {ℓ κ} : {A : Type ℓ} (P : A → Type κ) (xs : List A) (x : A) → All P xs → Memᴰ x xs → P x
All-mem P [] x a m = elim m [ ]
All-mem P (y ∷ ys) x a (Memᴰ.head e) = subst P (sym e) a.0
All-mem P (y ∷ ys) x a (Memᴰ.tail m) = All-mem P ys x a.1 m

-- Two rows that satisfy a query of which at most one does are the same.
pub same_row {ℓ} :
    {A : Type ℓ} (p : A → Bool) (xs : List A) (x y : A)
    → AtMostOne p xs
    → Memᴰ x xs
    → Memᴰ y xs
    → p x ≡ true
    → p y ≡ true
    → x ≡ y
same_row p [] x y u m n e f = elim m [ ]
same_row p (z ∷ zs) x y u (Memᴰ.head a) (Memᴰ.head b) e f = a ∙ sym b
same_row p (z ∷ zs) x y u (Memᴰ.head a) (Memᴰ.tail n) e f =
    let first : p z ≡ true = subst (λ w. p w ≡ true) a e in
    absurd (cc (f, All-mem (λ w. p w ≡ false) zs y (u.0 first) n))
same_row p (z ∷ zs) x y u (Memᴰ.tail m) (Memᴰ.head b) e f =
    let first : p z ≡ true = subst (λ w. p w ≡ true) b f in
    absurd (cc (e, All-mem (λ w. p w ≡ false) zs x (u.0 first) m))
same_row p (z ∷ zs) x y u (Memᴰ.tail m) (Memᴰ.tail n) e f = same_row p zs x y u.1 m n e f

-- Where at most one row satisfies a query, one of the rows that does is the only one.
pub only_row {ℓ} :
    {A : Type ℓ} (q : A → Bool) (xs : List A) (x : A)
    → AtMostOne q xs
    → Memᴰ x xs
    → q x ≡ true
    → All (λ y. q y ≡ true → y ≡ x) xs
only_row q [] x u m h = tt
only_row q (y ∷ ys) x u (Memᴰ.head e) h = (
  λ g. sym e,
  All-mono (λ z. q z ≡ false) (λ z. q z ≡ true → z ≡ x) ys (λ z f g. absurd (cc))
      (u.0 (subst (λ z. q z ≡ true) e h)),
)
only_row q (y ∷ ys) x u (Memᴰ.tail m) h =
    (λ g. absurd (cc (h, All-mem (λ z. q z ≡ false) ys x (u.0 g) m)), only_row q ys x u.1 m h)

-- A query with a row that satisfies it has a count, and the other way round.
module _ {ℓ} {A : Type ℓ} (q : A → Bool) where
  pub count_of_mem : (xs : List A) (x : A) → Memᴰ x xs → q x ≡ true → 0 < count_where q xs
  count_of_mem [] x m h = elim m [ ]
  count_of_mem (y ∷ xs) x (Memᴰ.head e) h = rw (subst (λ z. q z ≡ true) e h) (omega arith)
  count_of_mem (y ∷ xs) x (Memᴰ.tail m) h = ground (arith, count_of_mem xs x m h)

  pub mem_of_count : (xs : List A) → 0 < count_where q xs → (x : A) × Memᴰ x xs × (q x ≡ true)
  mem_of_count [] h = absurd (omega arith)
  mem_of_count (x ∷ xs) h = elim (Bool-cases (q x)) [
    | inl here ↦ (x, Memᴰ.head refl, here)
    | inr miss ↦ let (y, m, e) = mem_of_count xs (rw miss at h) in (y, Memᴰ.tail m, e)
  ]

  -- A row that an update is of is there as the update has made it.
  pub mem-update_where :
      (f : A → A) (xs : List A) (x : A) → Memᴰ x xs → q x ≡ true → Memᴰ (f x) (update_where q f xs)
  mem-update_where f [] x m h = elim m [ ]
  mem-update_where f (y ∷ xs) x (Memᴰ.head e) h =
      rw (subst (λ z. q z ≡ true) e h) (Memᴰ.head (subst (λ z. f x ≡ f z) e refl))
  mem-update_where f (y ∷ xs) x (Memᴰ.tail m) h = Memᴰ.tail (mem-update_where f xs x m h)
