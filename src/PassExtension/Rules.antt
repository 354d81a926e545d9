-- ===== src/PassExtension/Rules.antt =====
-- What an estate's rules for extensions may become, and who may change them: `updateRules` and
-- `resolveEstateId` of
-- backend/src/modules/invitation-extensions/invitation-extensions.service.ts.
use entryva.Base.{
  ℕ, ◌≤◌, ◌≡◌, ◌≢◌, ◌↔◌, refl, ap, sym, ◌∙◌, false, Option-cases, inl, inr, find-update_where,
  find_sound, if◌then◌else◌, not, arith, Option, none, some, find, select, ◌==◌, ==_refl,
  select-update_where, is_none, Text, differ,
}
use entryva.Effects.{ok, Result-cases}
use entryva.Extension.{ExtensionRules}
use entryva.Store.{estate_admin, User, Estate, Db}
use entryva.PassExtension.{
  scope_of, resolve_estate_id, find_estate, set_rules, get_rules, update_rules, same_minute,
}

-- Rules that an estate may have: quiet hours of which both ends are set, to different minutes, or
-- neither is, and a total that one extension fits into.
pub record AreSound (rules : ExtensionRules) : Type 0 where
  pub both_or_neither : (rules.quiet_from_minute ≡ none) ↔ (rules.quiet_to_minute ≡ none)
  pub not_empty :
      (from to : ℕ)
      → rules.quiet_from_minute ≡ some from
      → rules.quiet_to_minute ≡ some to
      → from ≢ to
  pub fits : rules.max_extend_minutes ≤ rules.max_total_minutes

both_ends :
    (a b : Option ℕ)
    → differ (is_none a) (is_none b) ≡ false
    → same_minute a b ≡ false
    → ((a ≡ none) ↔ (b ≡ none)) × ((from to : ℕ) → a ≡ some from → b ≡ some to → from ≢ to)
both_ends none none x s = ((λ _. refl, λ _. refl), λ from to e d. absurd (ground arith))
both_ends none (some b) x s = absurd (ground arith)
both_ends (some a) none x s = absurd (ground arith)
both_ends (some a) (some b) x s = (
  (λ e. absurd (ground arith), λ e. absurd (ground arith)),
  λ from to e d same. ground (arith, ==_refl a),
)

-- Rules that were accepted set both ends of the quiet hours, to different minutes, or neither, and
-- their longest total is at least their longest single extension.
update_rules-AreSound :
    (user_id : ℕ) (param : Option ℕ) (rules : ExtensionRules) (db : Db) (r : ExtensionRules × Text)
    → (update_rules user_id param rules db).0 ≡ ok r
    → AreSound rules
unfolding update_rules
update_rules-AreSound user_id param rules db r h =
    let checked : (differ (is_none rules.quiet_from_minute) (is_none rules.quiet_to_minute) ≡ false)
        × (same_minute rules.quiet_from_minute rules.quiet_to_minute ≡ false)
        × (rules.max_extend_minutes ≤ rules.max_total_minutes) =
      ground arith in
    let (both, empty) =
      both_ends rules.quiet_from_minute rules.quiet_to_minute checked.0 checked.1 in
    record { both_or_neither = both; not_empty = empty; fits = checked.2 }

resolve_own :
    (user_id : ℕ) (param : Option ℕ) (db : Db) (u : User) (own : ℕ)
    → find (λ x. x.id == user_id) db.users ≡ some u
    → u.role ≡ estate_admin
    → u.admin_estate_id ≡ some own
    → resolve_estate_id user_id param db ≡ (ok own, db)
unfolding resolve_estate_id
resolve_own user_id param db u own f role e = rw (f, role, e)

-- An estate admin's request changes no other estate than the admin's own, whatever estate it names.
update_rules_own_estate :
    (user_id : ℕ) (param : Option ℕ) (rules : ExtensionRules) (db : Db) (u : User) (own : ℕ)
    → find (λ x. x.id == user_id) db.users ≡ some u
    → u.role ≡ estate_admin
    → u.admin_estate_id ≡ some own
    → select (λ e. not (e.id == own)) (update_rules user_id param rules db).1.estates
      ≡ select (λ e. not (e.id == own)) db.estates
unfolding update_rules
update_rules_own_estate user_id param rules db u own f role e = ground (
  arith,
  resolve_own user_id param db u own f role e,
  select-update_where (λ (x : Estate). x.id == own) (λ x. record x { pass_rules = rules })
      (λ x. not (x.id == own)) db.estates (λ x h. ground arith),
)

resolve-ok :
    (user_id : ℕ) (param : Option ℕ) (db : Db) (id : ℕ)
    → (resolve_estate_id user_id param db).0 ≡ ok id
    → resolve_estate_id user_id param db ≡ (ok id, db)
unfolding resolve_estate_id scope_of
resolve-ok user_id param db id h = ground arith

resolve-users :
    (user_id : ℕ) (param : Option ℕ) (db db' : Db)
    → db.users ≡ db'.users
    → (resolve_estate_id user_id param db).0 ≡ (resolve_estate_id user_id param db').0
unfolding resolve_estate_id scope_of
resolve-users user_id param db db' h = ground arith

-- What an accepted change has found and written.
record Accepted (user_id : ℕ) (param : Option ℕ) (rules : ExtensionRules) (db db' : Db)
    (r : ExtensionRules × Text) : Type 0 where
  id : ℕ
  estate : Estate
  scope : resolve_estate_id user_id param db ≡ (ok id, db)
  found : find_estate id db ≡ some estate
  written : db'.estates ≡ (set_rules id rules db).estates
  users : db.users ≡ db'.users
  answer : r ≡ (rules, estate.timezone)

update_rules-ok :
    (user_id : ℕ) (param : Option ℕ) (rules : ExtensionRules) (db : Db) (r : ExtensionRules × Text)
    → (update_rules user_id param rules db).0 ≡ ok r
    → Accepted user_id param rules db (update_rules user_id param rules db).1 r
unfolding update_rules
update_rules-ok user_id param rules db r h =
    elim (Result-cases (resolve_estate_id user_id param db)) [
      | inr (e, s, f) ↦ absurd (ground arith)
      | inl (id, s, f) ↦
          let scope = resolve-ok user_id param db id (ap (λ x. x.0) f) in
          elim (Option-cases (find_estate id db)) [
            | inl e ↦ absurd (ground arith)
            | inr (est, e) ↦ record {
              id = id;
              estate = est;
              scope = scope;
              found = e;
              written = ground arith;
              users = ground arith;
              answer = ground arith;
            }
          ]
    ]

get-ok :
    (user_id : ℕ) (param : Option ℕ) (db : Db) (id : ℕ) (estate : Estate)
    → (resolve_estate_id user_id param db).0 ≡ ok id
    → find_estate id db ≡ some estate
    → (get_rules user_id param db).0 ≡ ok (estate.pass_rules, estate.timezone)
unfolding get_rules
get-ok user_id param db id estate scope found = ground (arith, resolve-ok user_id param db id scope)

-- Rules that were accepted are what the same user reads next.
get_rules-update_rules :
    (user_id : ℕ) (param : Option ℕ) (rules : ExtensionRules) (db : Db) (r : ExtensionRules × Text)
    → (update_rules user_id param rules db).0 ≡ ok r
    → (r.0 ≡ rules) × ((get_rules user_id param (update_rules user_id param rules db).1).0 ≡ ok r)
get_rules-update_rules user_id param rules db r h =
    let a = update_rules-ok user_id param rules db r h in
    let db' = (update_rules user_id param rules db).1 in
    let scope = sym (resolve-users user_id param db db' a.users) ∙ ap (λ x. x.0) a.scope in
    let found : find_estate a.id db' ≡ some (record a.estate { pass_rules = rules }) =
      ap (find (λ (e : Estate). e.id == a.id)) a.written
      ∙ find-update_where (λ (e : Estate). e.id == a.id) (λ e. record e { pass_rules = rules })
          (λ e. e.id == a.id) db.estates a.estate (λ e. refl) a.found
      ∙ ap (λ b. some (if b then record a.estate { pass_rules = rules } else a.estate))
          (find_sound (λ (e : Estate). e.id == a.id) db.estates a.estate a.found) in
    (
      ap (λ x. x.0) a.answer,
      get-ok user_id param db' a.id _ scope found ∙ ap (λ x. ok x) (sym a.answer),
    )
