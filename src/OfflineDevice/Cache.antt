-- ===== src/OfflineDevice/Cache.antt =====
-- What an object store holds after values were put into it: `replaceManifest` of
-- frontend/src/offline/db.ts.
use entryva.Base.{
  ℕ, ◌≡◌, ap, Bool, true, false, arith, some, List, [], ◌∷◌, All, any, find, AtMostOne, ◌==◌,
  ==_iff, Bool-cases, inl, inr, ltb,
}
use entryva.OfflineDevice.{put, put_all}

-- Rows that satisfy `q` are all `e`.
abbrev pub IsOnly {ℓ} : {A : Type ℓ} → (A → Bool) → A → A → Type ℓ
IsOnly q e x = q x ≡ true → x ≡ e

pub find_only {ℓ} :
    {A : Type ℓ} (q : A → Bool) (e : A) (xs : List A)
    → All (IsOnly q e) xs
    → any q xs ≡ true
    → find q xs ≡ some e
find_only q e [] h a = absurd (cc)
find_only q e (x ∷ xs) h a = elim (Bool-cases (q x)) [
  | inl here ↦ rw here (ap (λ z. some z) (h.0 here))
  | inr miss ↦ rw miss (find_only q e xs h.1 (rw miss at a))
]

module _ {A : Type 0} (key : A → ℕ) where
  pub put-All {κ} : (P : A → Type κ) (x : A) (s : List A) → P x → All P s → All P (put key x s)
  put-All P x [] p h = (p, tt)
  put-All P x (y ∷ ys) p h = elim (Bool-cases (key x == key y)) [
    | inl e ↦ rw e (p, h.1)
    | inr e ↦ rw e (elim (Bool-cases (ltb (key x) (key y))) [
      | inl l ↦ rw l (p, h)
      | inr l ↦ rw l (h.0, put-All P x ys p h.1)
    ])
  ]

  pub any-put : (q : A → Bool) (x : A) (s : List A) → q x ≡ true → any q (put key x s) ≡ true
  any-put q x [] h = ground arith
  any-put q x (y ∷ ys) h = ground (arith, any-put q x ys h)

  any-put_other :
      (q : A → Bool) (e x : A) (s : List A)
      → All (IsOnly q e) s
      → any q s ≡ true
      → (key x == key e) ≡ false
      → any q (put key x s) ≡ true
  any-put_other q e x [] h a k = absurd (cc)
  any-put_other q e x (y ∷ ys) h a k = elim (Bool-cases (q y)) [
    | inl here ↦ let same : y ≡ e = h.0 here in ground (arith, ap key same)
    | inr miss ↦ ground (arith, any-put_other q e x ys h.1 (rw miss at a) k)
  ]

  put_all-All {κ} : (P : A → Type κ) (xs s : List A) → All P xs → All P s → All P (put_all key xs s)
  put_all-All P [] s h g = g
  put_all-All P (x ∷ xs) s h g = put_all-All P xs (put key x s) h.1 (put-All P x s h.0 g)

  any-put_all_stored :
      (q : A → Bool) (e : A) (xs s : List A)
      → All (IsOnly q e) xs
      → All (IsOnly q e) s
      → All (λ x. (key x == key e) ≡ false) xs
      → any q s ≡ true
      → any q (put_all key xs s) ≡ true
  any-put_all_stored q e [] s h g k a = a
  any-put_all_stored q e (x ∷ xs) s h g k a =
      any-put_all_stored q e xs (put key x s) h.1 (put-All (IsOnly q e) x s h.0 g) k.1
        (any-put_other q e x s g a k.0)

  any-put_all :
      (q : A → Bool) (e : A) (xs s : List A)
      → All (IsOnly q e) xs
      → All (IsOnly q e) s
      → AtMostOne (λ x. key x == key e) xs
      → any q xs ≡ true
      → any q (put_all key xs s) ≡ true
  any-put_all q e [] s h g u a = absurd (cc)
  any-put_all q e (x ∷ xs) s h g u a = elim (Bool-cases (q x)) [
    | inl here ↦
        let same : x ≡ e = h.0 here in
        any-put_all_stored q e xs (put key x s) h.1 (put-All (IsOnly q e) x s h.0 g)
          (u.0 (ground (arith, (==_iff (key x) (key e)).1 (ap key same)))) (any-put q x s here)
    | inr miss ↦
        any-put_all q e xs (put key x s) h.1 (put-All (IsOnly q e) x s h.0 g) u.1 (rw miss at a)
  ]

  -- Of values with different keys, a query that fits one of them finds that one in the store.
  pub find-put_all :
      (q : A → Bool) (e : A) (xs : List A)
      → All (IsOnly q e) xs
      → AtMostOne (λ x. key x == key e) xs
      → any q xs ≡ true
      → find q (put_all key xs []) ≡ some e
  find-put_all q e xs h u a =
      find_only q e (put_all key xs []) (put_all-All (IsOnly q e) xs [] h tt)
        (any-put_all q e xs [] h tt u a)
