-- ===== src/Emergency/Respond/Order.antt =====
-- The order of the alerts that staff see: `list` of
-- backend/src/modules/alerts/emergency.service.ts.
use entryva.Base.{
  ◌≡◌, Bool, true, false, arith, Bool-cases, inl, inr, List, [], ◌∷◌, All, All-mono, count_where,
}
use entryva.Emergency.{EmergencyView}
use entryva.Emergency.Respond.{before, insert_view, sort_views}

-- No alert comes before one that is more urgent, or as urgent and newer.
abbrev pub IsSorted : List EmergencyView → Type 0
IsSorted [] = Unit
IsSorted (v ∷ vs) = All (λ w. before v w ≡ true) vs × IsSorted vs

insert-All :
    (P : EmergencyView → Type 0) (v : EmergencyView) (vs : List EmergencyView)
    → P v
    → All P vs
    → All P (insert_view v vs)
unfolding insert_view
insert-All P v [] p h = (p, tt)
insert-All P v (w ∷ ws) p h = elim (Bool-cases (before v w)) [
  | inl e ↦ rw e (p, h)
  | inr e ↦ rw e (h.0, insert-All P v ws p h.1)
]

before_trans : (u v w : EmergencyView) → before u v ≡ true → before v w ≡ true → before u w ≡ true
unfolding before
before_trans u v w h k = ground arith

before-total : (v w : EmergencyView) → before v w ≡ false → before w v ≡ true
unfolding before
before-total v w h = ground arith

insert-IsSorted :
    (v : EmergencyView) (vs : List EmergencyView) → IsSorted vs → IsSorted (insert_view v vs)
unfolding insert_view
insert-IsSorted v [] h = (tt, tt)
insert-IsSorted v (w ∷ ws) h = elim (Bool-cases (before v w)) [
  | inl e ↦ rw e (
    (
      e,
      All-mono (λ x. before w x ≡ true) (λ x. before v x ≡ true) ws (λ x k. before_trans v w x e k)
          h.0,
    ),
    h,
  )
  | inr e ↦
      rw e (
        insert-All (λ x. before w x ≡ true) v ws (before-total v w e) h.0,
        insert-IsSorted v ws h.1,
      )
]

insert-count :
    (q : EmergencyView → Bool) (v : EmergencyView) (vs : List EmergencyView)
    → count_where q (insert_view v vs) ≡ count_where q (v ∷ vs)
unfolding insert_view
insert-count q v [] = ground arith
insert-count q v (w ∷ ws) = ground (arith, insert-count q v ws)

sorted_count :
    (q : EmergencyView → Bool) (vs : List EmergencyView)
    → count_where q (sort_views vs) ≡ count_where q vs
unfolding sort_views
sorted_count q [] = ground arith
sorted_count q (v ∷ vs) = ground (arith, insert-count q v (sort_views vs), sorted_count q vs)

views-IsSorted : (vs : List EmergencyView) → IsSorted (sort_views vs)
unfolding sort_views
views-IsSorted [] = tt
views-IsSorted (v ∷ vs) = insert-IsSorted v (sort_views vs) (views-IsSorted vs)

-- Sorting puts open alerts before acknowledged ones and those before resolved ones, the newer first
-- among equals, and keeps each alert as often as it was there.
sort_views-IsSorted :
    (vs : List EmergencyView)
    → IsSorted (sort_views vs)
      × ((q : EmergencyView → Bool) → count_where q (sort_views vs) ≡ count_where q vs)
sort_views-IsSorted vs = (views-IsSorted vs, λ q. sorted_count q vs)
