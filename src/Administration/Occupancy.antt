-- ===== src/Administration/Occupancy.antt =====
-- Which apartments are occupied: `createResident`, `updateResident`, `removeResident` and
-- `updateResidentStatus` of backend/src/modules/administration/administration.service.ts, and
-- `completeInvite` of backend/src/modules/resident-invites/resident-invites.service.ts.
use entryva.Base.{
  ℕ, ◌≡◌, refl, sym, ◌∙◌, ap, Bool, true, false, arith, ltb, ◌==◌, ==_iff, if◌then◌else◌,
  Bool-cases, inl, inr, List, [], ◌∷◌, All, All-mono, All-map_where, update_where, count_where,
}
use entryva.Store.{is_removed, Apartment, ResidentProfile}
use entryva.Administration.{lives, set_occupied}

-- The number of residents that an apartment has.
abbrev pub residents_in : ℕ → List ResidentProfile → ℕ
residents_in x rs = count_where (lives x) rs

-- An apartment is marked as occupied exactly when a resident who was not removed lives there.
abbrev pub IsMarked : List ResidentProfile → Apartment → Type 0
IsMarked rs a = a.occupied ≡ ltb 0 (residents_in a.id rs)

abbrev pub AllMarked : List ResidentProfile → List Apartment → Type 0
AllMarked rs apartments = All (IsMarked rs) apartments

-- What holds in both cases of a test.
in_cases {κ} :
    {A : Type 0} (P : A → Type κ) (b : Bool) (x y : A)
    → (b ≡ true → P x)
    → (b ≡ false → P y)
    → P (if b then x else y)
in_cases P true x y h k = h refl
in_cases P false x y h k = k refl

-- A resident moves in.
pub AllMarked-add :
    (r : ResidentProfile) (rs : List ResidentProfile) (apartments : List Apartment)
    → is_removed r.user_status ≡ false
    → AllMarked rs apartments
    → AllMarked (r ∷ rs) (update_where (λ a. a.id == r.apartment_id) (set_occupied true) apartments)
AllMarked-add r rs apartments here h =
    All-map_where (IsMarked rs) (IsMarked (r ∷ rs)) (λ a. a.id == r.apartment_id)
      (set_occupied true) apartments
      (λ a m.
        in_cases (IsMarked (r ∷ rs)) (a.id == r.apartment_id) (set_occupied true a) a
          (λ e. ground arith)
          (λ e.
            let stays : residents_in a.id (r ∷ rs) ≡ residents_in a.id rs = ground arith in
            m ∙ ap (ltb 0) (sym stays)))
      h

-- A write that keeps, of every row it touches, whether it lives in an apartment.
pub residents_in-update :
    (x : ℕ) (p : ResidentProfile → Bool) (f : ResidentProfile → ResidentProfile)
    (rs : List ResidentProfile)
    → All (λ r. p r ≡ true → lives x (f r) ≡ lives x r) rs
    → residents_in x (update_where p f rs) ≡ residents_in x rs
residents_in-update x p f [] h = refl
residents_in-update x p f (r ∷ rs) h = elim (Bool-cases (p r)) [
  | inl e ↦ rw (e, h.0 e, residents_in-update x p f rs h.1) refl
  | inr e ↦ rw (e, residents_in-update x p f rs h.1) refl
]

-- Where nothing changes for any apartment, the marks stay right.
pub AllMarked-same :
    (rs rs' : List ResidentProfile) (apartments : List Apartment)
    → ((y : ℕ) → residents_in y rs' ≡ residents_in y rs)
    → AllMarked rs apartments
    → AllMarked rs' apartments
AllMarked-same rs rs' apartments same h =
    All-mono (IsMarked rs) (IsMarked rs') apartments (λ a m. m ∙ ap (ltb 0) (sym (same a.id))) h

-- One apartment is counted again, and nothing changed for any other.
pub AllMarked-recompute_one :
    (rs rs' : List ResidentProfile) (x : ℕ) (apartments : List Apartment)
    → ((z : ℕ) → (z == x) ≡ false → residents_in z rs' ≡ residents_in z rs)
    → AllMarked rs apartments
    → AllMarked rs'
        (update_where (λ a. a.id == x) (set_occupied (ltb 0 (residents_in x rs'))) apartments)
AllMarked-recompute_one rs rs' x apartments same h =
    All-map_where (IsMarked rs) (IsMarked rs') (λ a. a.id == x)
      (set_occupied (ltb 0 (residents_in x rs'))) apartments
      (λ a m.
        in_cases (IsMarked rs') (a.id == x) (set_occupied (ltb 0 (residents_in x rs')) a) a
          (λ e. ap (λ z. ltb 0 (residents_in z rs')) (sym ((==_iff a.id x).0 e)))
          (λ e. m ∙ ap (ltb 0) (sym (same a.id e))))
      h

module _ (rs rs' : List ResidentProfile) (x y : ℕ)
    (same : (z : ℕ)
      → (z == x) ≡ false
      → (z == y) ≡ false
      → residents_in z rs' ≡ residents_in z rs) where
  -- Everything changed but at `y`.
  abbrev ButOne : Apartment → Type 0
  ButOne a = (a.id == y) ≡ false → IsMarked rs' a

  -- Two apartments are counted again, and nothing changed for any other.
  pub AllMarked-recompute :
      (apartments : List Apartment)
      → AllMarked rs apartments
      → AllMarked rs' (
          update_where
            (λ a. a.id == y)
            (set_occupied (ltb 0 (residents_in y rs')))
            (update_where (λ a. a.id == x) (set_occupied (ltb 0 (residents_in x rs'))) apartments))
  AllMarked-recompute apartments h =
      All-map_where ButOne (IsMarked rs') (λ a. a.id == y)
        (set_occupied (ltb 0 (residents_in y rs')))
        (update_where (λ a. a.id == x) (set_occupied (ltb 0 (residents_in x rs'))) apartments)
        (λ a m. elim (Bool-cases (a.id == y)) [
          | inl e ↦ rw e (ap (λ z. ltb 0 (residents_in z rs')) (sym ((==_iff a.id y).0 e)))
          | inr e ↦ rw e (m e)
        ])
        (All-map_where (IsMarked rs) ButOne (λ a. a.id == x)
          (set_occupied (ltb 0 (residents_in x rs'))) apartments
          (λ a m. elim (Bool-cases (a.id == x)) [
            | inl e ↦ rw e (λ n. ap (λ z. ltb 0 (residents_in z rs')) (sym ((==_iff a.id x).0 e)))
            | inr e ↦ rw e (λ n. m ∙ ap (ltb 0) (sym (same a.id e n)))
          ])
          h)
