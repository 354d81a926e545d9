-- ===== src/Announcements/Told.antt =====
-- Who is told of a post: `create` of backend/src/modules/alerts/announcements.service.ts.
use entryva.Base.{
  ℕ, ◌+◌, ◌≡◌, ap, ap₂, ◌∙◌, Bool, arith, ◌==◌, ◌&&◌, ◌||◌, not, if◌then◌else◌, Bool-cases, inl,
  inr, some, List, [], ◌∷◌, map, any, select,
}
use entryva.Effects.{ok}
use entryva.Store.{is_active_user, Db, Env}
use entryva.Emergency.{
  AuthenticatedUser, residents, officers, admins, is_estate_admin, is_id, add_all, group_ids,
  find_recipient_user_ids,
}
use entryva.Emergency.Recipients.{has_id, has_id-add_all, has_id-map}
use entryva.Emergency.Alarm.{messages_of, dispatch_many-messages}
use entryva.Announcements.{
  CreateAnnouncement, AnnouncementView, create, is_security_officer, is_security_alert,
}

-- An active resident, officer or admin of an estate.
unfoldable pub belongs : ℕ → Db → ℕ → Bool
belongs estate_id db u =
    (any
        (λ r.
          r.user_id == u
          && (r.estate_id == estate_id && (r.active && is_active_user r.user_status)))
        db.residents
      || any
          (λ o.
            o.user_id == u
            && (o.estate_id == estate_id && (o.active && is_active_user o.user_status)))
          db.officers)
    || any
        (λ a.
          a.id == u
          && (is_estate_admin a.role
              && (is_id a.admin_estate_id estate_id && is_active_user a.status)))
        db.users

has_id-everyone :
    (estate_id u : ℕ) (db : Db)
    → has_id u (find_recipient_user_ids estate_id (residents ∷ officers ∷ admins ∷ []) db)
      ≡ belongs estate_id db u
unfolding find_recipient_user_ids group_ids belongs
has_id-everyone estate_id u db =
    let homes =
      map (λ r. r.user_id)
        (select (λ r. r.estate_id == estate_id && (r.active && is_active_user r.user_status))
          db.residents) in
    let guards =
      map (λ o. o.user_id)
        (select (λ o. o.estate_id == estate_id && (o.active && is_active_user o.user_status))
          db.officers) in
    has_id-add_all u
      (map (λ a. a.id)
        (select
          (λ a.
            is_estate_admin a.role
            && (is_id a.admin_estate_id estate_id && is_active_user a.status))
          db.users))
      (add_all guards (add_all homes []))
    ∙ ap₂ ◌||◌
        (has_id-add_all u guards (add_all homes [])
          ∙ ap₂ ◌||◌ (has_id-add_all u homes [] ∙ has_id-map u (λ r. r.user_id) _ db.residents)
              (has_id-map u (λ o. o.user_id) _ db.officers))
        (has_id-map u (λ a. a.id) _ db.users)

-- The author is taken out of the list, and nobody else.
has_id-others :
    (u author : ℕ) (ids : List ℕ)
    → has_id u (select (λ id. not (id == author)) ids) ≡ (not (u == author) && has_id u ids)
has_id-others u author [] = ground arith
has_id-others u author (id ∷ ids) = ground (arith, has_id-others u author ids)

module _ (env : Env) (user : AuthenticatedUser) (dto : CreateAnnouncement) where
  -- A post that is accepted sends one message to each active resident, officer and admin of the author's
  -- estate except the author, and none to anyone else.
  pub create-told :
      (estate_id : ℕ) (db : Db) (v : AnnouncementView) (u : ℕ)
      → (create env user dto db).0 ≡ ok v
      → user.estate_id ≡ some estate_id
      → messages_of u (create env user dto db).1
        ≡ (if not (u == user.user_id) && belongs estate_id db u then 1 else 0) + messages_of u db
  unfolding create belongs
  create-told estate_id db v u h e =
      elim (Bool-cases (is_security_officer user.role && not (is_security_alert dto.kind))) [
        | inl barred ↦ absurd (ground (arith, e, barred))
        | inr free ↦
            rw (e, free)
              (dispatch_many-messages u _ _ _
                ∙ ap (λ b. (if b then 1 else 0) + messages_of u db)
                    (has_id-others u user.user_id _
                      ∙ ap (λ b. not (u == user.user_id) && b) (has_id-everyone estate_id u _)))
      ]
