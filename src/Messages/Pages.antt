-- ===== src/Messages/Pages.antt =====
-- A conversation page by page: `getThread` of backend/src/modules/messages/messages.service.ts.
use entryva.Base.{
  ℕ, min, ◌≡◌, ◌≢◌, sym, subst, ap, Bool, false, ◌==◌, Bool-cases, inl, inr, some, List, [], ◌∷◌,
  ◌++◌, map, All, select, take, AtMostOne, ==_refl,
}
use entryva.Store.{OfficerMessage, Db}
use entryva.Messages.{is_between, from_cursor, skip_one, serialize, get_thread, max_page_size}

-- A row whose id no row has is not among those that are selected.
absent :
    (p : OfficerMessage → Bool) (x : OfficerMessage) (ms xs ys : List OfficerMessage)
    → All (λ m. (m.id == x.id) ≡ false) ms
    → select p ms ≢ xs ++ x ∷ ys
absent p x [] [] ys a h = cc
absent p x [] (z ∷ xs) ys a h = cc
absent p x (m ∷ ms) [] ys a h = elim (Bool-cases (p m)) [
  | inl e ↦
      let same : m ≡ x = cc in
      absurd (cc (subst (λ y. (m.id == y.id) ≡ false) (sym same) a.0, ==_refl m.id))
  | inr e ↦ absent p x ms [] ys a.1 (rw e at h)
]
absent p x (m ∷ ms) (z ∷ xs) ys a h = elim (Bool-cases (p m)) [
  | inl e ↦ absent p x ms xs ys a.1 (ap skip_one (rw e at h))
  | inr e ↦ absent p x ms (z ∷ xs) ys a.1 (rw e at h)
]

-- The first row that is selected has the cursor's id.
cut_here :
    (p : OfficerMessage → Bool) (x m : OfficerMessage) (ms xs ys : List OfficerMessage)
    → All (λ y. (y.id == x.id) ≡ false) ms
    → m ∷ select p ms ≡ xs ++ x ∷ ys
    → select p ms ≡ ys
cut_here p x m ms [] ys a h = ap skip_one h
cut_here p x m ms (z ∷ xs) ys a h = absurd (absent p x ms xs ys a (ap skip_one h))

-- The first row that is selected has another id, so it is not the one looked for.
passed :
    (p : OfficerMessage → Bool) (x m : OfficerMessage) (ms xs ys : List OfficerMessage)
    → (m.id == x.id) ≡ false
    → m ∷ select p ms ≡ xs ++ x ∷ ys
    → (zs : List OfficerMessage) × (select p ms ≡ zs ++ x ∷ ys)
passed p x m ms [] ys e h =
    let same : m ≡ x = cc in
    absurd (cc (subst (λ y. (m.id == y.id) ≡ false) (sym same) e, ==_refl m.id))
passed p x m ms (z ∷ zs) ys e h = (zs, ap skip_one h)

-- The row with the cursor's id is skipped, and what follows it in the conversation is left.
rows_after_cursor :
    (p : OfficerMessage → Bool) (x : OfficerMessage) (ms xs ys : List OfficerMessage)
    → AtMostOne (λ m. m.id == x.id) ms
    → select p ms ≡ xs ++ x ∷ ys
    → skip_one (select p (from_cursor x.id ms)) ≡ ys
rows_after_cursor p x [] [] ys u h = absurd (cc)
rows_after_cursor p x [] (z ∷ xs) ys u h = absurd (cc)
rows_after_cursor p x (m ∷ ms) xs ys u h = elim (Bool-cases (m.id == x.id)) [
  | inl e ↦ elim (Bool-cases (p m)) [
    | inl k ↦ rw (e, k) (cut_here p x m ms xs ys (u.0 e) (rw k at h))
    | inr k ↦ absurd (absent p x ms xs ys (u.0 e) (rw k at h))
  ]
  | inr e ↦ elim (Bool-cases (p m)) [
    | inl k ↦
        let (zs, later) = passed p x m ms xs ys e (rw k at h) in
        rw e (rows_after_cursor p x ms zs ys u.1 later)
    | inr k ↦ rw (e) (rows_after_cursor p x ms xs ys u.1 (rw k at h))
  ]
]

-- Where identifiers are unique, a page that is asked for with the id of the last message shown, `x`,
-- goes on exactly after it: the messages `xs` of the conversation up to it are not shown again, and of
-- those after it, `ys`, none is left out, up to the limit and at most fifty.
pub get_thread-pages :
    (estate_id user_id other_id limit : ℕ) (db : Db) (x : OfficerMessage)
    (xs ys : List OfficerMessage)
    → AtMostOne (λ m. m.id == x.id) db.officer_messages
    → select (is_between estate_id user_id other_id) db.officer_messages ≡ xs ++ x ∷ ys
    → get_thread estate_id user_id other_id (some x.id) limit db
      ≡ map serialize (take (min limit max_page_size) ys)
unfolding get_thread
get_thread-pages estate_id user_id other_id limit db x xs ys u h =
    ap (λ rows. map serialize (take (min limit max_page_size) rows))
      (rows_after_cursor (is_between estate_id user_id other_id) x db.officer_messages xs ys u h)
