-- ===== src/ResidentPasses/Requests/Phone.antt =====
-- The first phone that opens a pass keeps it: `publicView` of
-- backend/src/modules/recurring-passes/recurring-passes.service.ts.
use entryva.Base.{
  ℕ, ◌≡◌, refl, sym, subst, ◌∙◌, true, false, arith, ◌==◌, ◌&&◌, Bool-cases, ◌⊎◌, inl, inr, none,
  some, Option-cases, is_none, List, All, AtMostOne, find, find-update_where,
  AtMostOne-update_where, All-find, unique_found, Text, update_where,
}
use entryva.Calendar.{local_moment}
use entryva.Calendar.Days.{IsDate}
use entryva.Effects.{ok}
use entryva.PassQr.{is_token}
use entryva.Store.{RecurringPass, Db, Env}
use entryva.ResidentPasses.Link.{PublicPass, public_view, bad_device}
use entryva.ResidentPasses.Machine.{PassState, state_of, here, Reach-linked}
use entryva.ResidentPasses.Requests.{PassPlatform, PassRequest, serve_passes}
use entryva.ResidentPasses.Requests.Writes.{is_row, linked_to}
use entryva.ResidentPasses.Requests.Tracks.{Tracks}
use entryva.ResidentPasses.Requests.Refines.{IsAdmissible, serve_passes-Tracks}

module _ (o : PassPlatform) (env : Env) (token device : Text) (db : Db) (p : RecurringPass)
    (v : PublicPass)
    (found : find (λ y. y.rules.token_hash == o.hash token) db.recurring_passes ≡ some p)
    (opened : (public_view o.hash o.hmac_hex o.format_to_parts env token (some device) db).0
      ≡ ok v) where
  abbrev pub after_opening : Db
  after_opening = (public_view o.hash o.hmac_hex o.format_to_parts env token (some device) db).1

  -- A phone that was let in is the one that the pass had, or the pass had none and is linked to it.
  pub opened-device :
      (p.linked_device ≡ some (o.hash device)) × (after_opening ≡ db)
      ⊎ ((p.linked_device ≡ none)
          × (after_opening.recurring_passes
              ≡ update_where
                  (λ y. y.id == p.id && is_none y.linked_device)
                  (linked_to env.now (o.hash device))
                  db.recurring_passes))
  unfolding public_view
  opened-device = elim (Bool-cases (is_token token)) [
    | inr bad ↦ absurd (ground arith)
    | inl good ↦ elim (Bool-cases (bad_device (some device))) [
      | inl bad ↦ absurd (ground arith)
      | inr known ↦ elim (Option-cases p.linked_device) [
        | inl new ↦ inr (new, ground arith)
        | inr (d, old) ↦ inl (ground arith, ground arith)
      ]
    ]
  ]

  -- After the opening the row is linked to the phone.
  after_opening-Tracks :
      AtMostOne (is_row p.id) db.recurring_passes
      → find (is_row p.id) db.recurring_passes ≡ some p
      → (s : PassState) × (s.linked ≡ some (o.hash device)) × Tracks false p.id s after_opening
  after_opening-Tracks unique row = elim opened-device [
    | inl (old, same) ↦ (
      state_of p,
      old,
      record { row = p; found = rw same row; reached = here; unique = rw same unique },
    )
    | inr (new, w) ↦
        let q = linked_to env.now (o.hash device) p in
        let match : (p.id == p.id && is_none p.linked_device) ≡ true = ground arith in
        (
          state_of q,
          refl,
          record {
            row = q;
            found = rw w (
                find-update_where (λ y. y.id == p.id && is_none y.linked_device)
                  (linked_to env.now (o.hash device)) (is_row p.id) db.recurring_passes p
                  (λ y. refl) row
                ∙ rw match refl);
            reached = here;
            unique = rw w (
                AtMostOne-update_where (is_row p.id) (λ y. y.id == p.id && is_none y.linked_device)
                  (linked_to env.now (o.hash device)) db.recurring_passes (λ y h. h) unique);
          },
        )
  ]

-- Once a phone has opened the page of a pass, the only one with its id, then after any sequence of
-- requests in which no phone is reset (new passes under other ids, openings by other phones, changes
-- of any kind and renewals by at least a day), whoever opens the page of this pass has a phone with
-- the same hash.
pub first_phone_keeps :
    (o : PassPlatform)
    (dates : (zone : Text) (now : ℕ) → IsDate (local_moment o.format_to_parts zone now).date)
    (env later : Env) (token device token' device' : Text) (db : Db) (p q : RecurringPass)
    (v w : PublicPass) (rs : List PassRequest)
    → AtMostOne (is_row p.id) db.recurring_passes
    → find (is_row p.id) db.recurring_passes ≡ some p
    → find (λ y. y.rules.token_hash == o.hash token) db.recurring_passes ≡ some p
    → (public_view o.hash o.hmac_hex o.format_to_parts env token (some device) db).0 ≡ ok v
    → All (IsAdmissible false p.id) rs
    → let opened = (public_view o.hash o.hmac_hex o.format_to_parts env token (some device) db).1 in
      let after = serve_passes o rs opened in
      find (λ y. y.rules.token_hash == o.hash token') after.recurring_passes ≡ some q
      → q.id ≡ p.id
      → (public_view o.hash o.hmac_hex o.format_to_parts later token' (some device') after).0 ≡ ok w
      → o.hash device' ≡ o.hash device
first_phone_keeps o dates env later token device token' device' db p q v w rs unique row found
      opened admissible again same reopened =
    let (s, linked, t0) = after_opening-Tracks o env token device db p v found opened unique row in
    let t = serve_passes-Tracks o dates false p.id s rs _ admissible t0 in
    let mine : q ≡ t.row =
      All-find (λ y. is_row p.id y ≡ true → y ≡ t.row) (λ y. y.rules.token_hash == o.hash token') _
        q (unique_found (is_row p.id) _ t.row t.unique t.found) again (ground arith) in
    let kept : q.linked_device ≡ some (o.hash device) =
      subst (λ y. y.linked_device ≡ some (o.hash device)) (sym mine)
        (Reach-linked linked t.reached) in
    elim (opened-device o later token' device' _ q w again reopened) [
      | inl (old, _) ↦ ground arith
      | inr (new, _) ↦ absurd (ground arith)
    ]
