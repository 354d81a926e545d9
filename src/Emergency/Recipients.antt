-- ===== src/Emergency/Recipients.antt =====
-- Who is told: `findRecipientUserIds` of backend/src/modules/alerts/alert-recipients.ts.
use entryva.Base.{
  ℕ, ◌≡◌, refl, ap₂, subst, ltb, count_where, ◌≤◌, ◌+◌, ◌∙◌, Bool, false, ◌&&◌, ◌||◌, arith, ◌==◌,
  ==_iff, Bool-cases, inl, inr, List, [], ◌∷◌, ◌++◌, map, any, select, if◌then◌else◌,
}
use entryva.Store.{is_active_user, Db}
use entryva.Emergency.{
  officers, admins, is_estate_admin, is_id, add_id, add_all, group_ids, find_recipient_user_ids,
}

abbrev pub has_id : ℕ → List ℕ → Bool
has_id u ids = any (λ x. x == u) ids

has_id-append : (u : ℕ) (xs ys : List ℕ) → has_id u (xs ++ ys) ≡ (has_id u xs || has_id u ys)
has_id-append u [] ys = refl
has_id-append u (x ∷ xs) ys = ground (arith, has_id-append u xs ys)

has_id-add_id : (u x : ℕ) (ids : List ℕ) → has_id u (add_id x ids) ≡ (has_id u ids || x == u)
has_id-add_id u x ids = elim (Bool-cases (has_id x ids)) [
  | inl e ↦ rw e (elim (Bool-cases (x == u)) [
    | inl same ↦ ground (arith, (==_iff x u).0 same)
    | inr different ↦ ground arith
  ])
  | inr e ↦ rw e (has_id-append u ids (x ∷ []) ∙ ground arith)
]

pub has_id-add_all :
    (u : ℕ) (xs ids : List ℕ) → has_id u (add_all xs ids) ≡ (has_id u ids || has_id u xs)
unfolding add_all
has_id-add_all u [] ids = ground arith
has_id-add_all u (x ∷ xs) ids =
    ground (arith, has_id-add_all u xs (add_id x ids), has_id-add_id u x ids)

-- How often a user is in a list.
abbrev pub times : ℕ → List ℕ → ℕ
times u ids = count_where (λ x. x == u) ids

has_id-times : (u : ℕ) (ids : List ℕ) → has_id u ids ≡ ltb 0 (times u ids)
has_id-times u [] = refl
has_id-times u (x ∷ xs) = ground (arith, has_id-times u xs)

times-snoc :
    (u x : ℕ) (ids : List ℕ) → times u (ids ++ x ∷ []) ≡ times u ids + (if x == u then 1 else 0)
times-snoc u x [] = ground arith
times-snoc u x (y ∷ ys) = ground (arith, times-snoc u x ys)

times-add_id : (u x : ℕ) (ids : List ℕ) → times u ids ≤ 1 → times u (add_id x ids) ≤ 1
times-add_id u x ids h = elim (Bool-cases (has_id x ids)) [
  | inl e ↦ rw e h
  | inr e ↦ rw e (elim (Bool-cases (x == u)) [
    | inl same ↦
        let none_yet : has_id u ids ≡ false =
          subst (λ y. has_id y ids ≡ false) ((==_iff x u).0 same) e in
        ground (arith, times-snoc u x ids, has_id-times u ids)
    | inr different ↦ ground (arith, times-snoc u x ids)
  ])
]

times-add_all : (u : ℕ) (xs ids : List ℕ) → times u ids ≤ 1 → times u (add_all xs ids) ≤ 1
unfolding add_all
times-add_all u [] ids h = h
times-add_all u (x ∷ xs) ids h = times-add_all u xs (add_id x ids) (times-add_id u x ids h)

-- A set of the users of a list has each of them once.
pub times-set : (u : ℕ) (xs : List ℕ) → times u (add_all xs []) ≡ (if has_id u xs then 1 else 0)
times-set u xs = ground (
  arith,
  times-add_all u xs [] (omega arith),
  has_id-times u (add_all xs []),
  has_id-add_all u xs [],
)

pub has_id-map :
    {A : Type 0} (u : ℕ) (id_of : A → ℕ) (p : A → Bool) (xs : List A)
    → has_id u (map id_of (select p xs)) ≡ any (λ x. id_of x == u && p x) xs
has_id-map u id_of p [] = refl
has_id-map u id_of p (x ∷ xs) = elim (Bool-cases (p x)) [
  | inl e ↦ ground (arith, has_id-map u id_of p xs)
  | inr e ↦ ground (arith, has_id-map u id_of p xs)
]

-- A user who answers alarms in an estate: an active officer of it, or an active admin.
unfoldable pub responds : ℕ → Db → ℕ → Bool
responds estate_id db u =
    any
      (λ o.
        o.user_id == u && (o.estate_id == estate_id && (o.active && is_active_user o.user_status)))
      db.officers
    || any
        (λ a.
          a.id == u
          && (is_estate_admin a.role
              && (is_id a.admin_estate_id estate_id && is_active_user a.status)))
        db.users

pub has_id-find_recipient_user_ids :
    (estate_id u : ℕ) (db : Db)
    → has_id u (find_recipient_user_ids estate_id (officers ∷ admins ∷ []) db)
      ≡ responds estate_id db u
unfolding find_recipient_user_ids group_ids responds
has_id-find_recipient_user_ids estate_id u db =
    let guards =
      map (λ o. o.user_id)
        (select (λ o. o.estate_id == estate_id && (o.active && is_active_user o.user_status))
          db.officers) in
    has_id-add_all u
      (map (λ a. a.id)
        (select
          (λ a.
            is_estate_admin a.role
            && (is_id a.admin_estate_id estate_id && is_active_user a.status))
          db.users))
      (add_all guards [])
    ∙ ap₂ ◌||◌ (has_id-add_all u guards [] ∙ has_id-map u (λ o. o.user_id) _ db.officers)
        (has_id-map u (λ a. a.id) _ db.users)
