-- ===== src/Announcements.antt =====
-- Notices and security alerts: backend/src/modules/alerts/announcements.service.ts.
pub mod Told
pub mod Preview
use entryva.Base.{
  ℕ, ◌+◌, Bool, true, false, ◌&&◌, ◌||◌, not, leb, ◌==◌, if◌then◌else◌, Option, none, some, List,
  [], ◌∷◌, ◌++◌, map, select, take, length, count_where, Text, is_space, trim,
}
use entryva.Effects.{
  Action, ok, pure, gets, modify, throw_if, or_throw, ◌>>=◌, ◌>>◌, forbidden, not_found,
}
use entryva.Store.{
  UserRole, security_officer, AnnouncementKind, announcement, security_alert, Announcement,
  NotificationEvent, AuditAction, announcement_deleted, Db, Env, log,
}
use entryva.Emergency.{
  AuthenticatedUser, residents, officers, admins, find_recipient_user_ids, dispatch_many, estate_of,
}

-- `CreateAnnouncementDto`
pub record CreateAnnouncement : Type 0 where
  pub kind : AnnouncementKind
  pub title : Text
  pub body : Text

pub record AnnouncementView : Type 0 where
  pub id : ℕ
  pub kind : AnnouncementKind
  pub title : Text
  pub body : Text
  pub author_name : Text
  pub created_at : ℕ

-- `LIST_LIMIT`
abbrev pub list_limit : ℕ
list_limit = 50

-- `replace(/\s+/g, ' ')`; the flag says that the character before was a space.
unfoldable pub flatten : Bool → Text → Text
flatten after [] = []
flatten after (c ∷ cs) =
    let rest = flatten (is_space c) cs in
    if is_space c then (if after then rest else 32 ∷ rest) else c ∷ rest

abbrev pub is_empty : Text → Bool
is_empty [] = true
is_empty (c ∷ cs) = false

-- `trimEnd()`
unfoldable pub trim_end : Text → Text
trim_end [] = []
trim_end (c ∷ cs) = let rest = trim_end cs in if is_space c && is_empty rest then [] else c ∷ rest

-- `previewOf`
unfoldable pub preview_of : Text → Text
unfolding flatten trim_end
preview_of body =
    let flat = trim (flatten false body) in
    if leb (length flat) 140 then flat else trim_end (take 139 flat) ++ 8230 ∷ []

-- `toView`
abbrev pub to_view : Announcement → AnnouncementView
to_view row = record {
  id = row.id;
  kind = row.kind;
  title = row.title;
  body = row.body;
  author_name = row.author_name;
  created_at = row.created_at;
}

abbrev pub is_security_alert : AnnouncementKind → Bool
is_security_alert security_alert = true
is_security_alert announcement = false

abbrev pub is_security_officer : UserRole → Bool
is_security_officer security_officer = true
is_security_officer _ = false

abbrev pub new_announcement : Env → AuthenticatedUser → CreateAnnouncement → ℕ → Announcement
new_announcement env user dto estate_id = record {
  id = env.new_id;
  estate_id = estate_id;
  author_id = user.user_id;
  author_name = user.display_name;
  kind = dto.kind;
  title = dto.title;
  body = dto.body;
  created_at = env.now;
}

-- What is sent about a post.
abbrev pub event_of : Announcement → NotificationEvent
event_of a = elim a.kind [
  | security_alert ↦ NotificationEvent.security_alert a.id a.title (preview_of a.body)
  | announcement ↦ NotificationEvent.announcement_posted a.id a.title (preview_of a.body)
]

-- Everyone in the estate but the author.
abbrev pub readers : ℕ → ℕ → Db → List ℕ
readers estate_id author_id db =
    select (λ id. not (id == author_id))
      (find_recipient_user_ids estate_id (residents ∷ officers ∷ admins ∷ []) db)

-- `create`
unfoldable pub create : Env → AuthenticatedUser → CreateAnnouncement → Action Db AnnouncementView
create env user dto = do
  estate_id ← estate_of user
  throw_if (is_security_officer user.role && not (is_security_alert dto.kind))
      (forbidden "Security officers can only send security alerts.")
  modify (λ db. record db {
    announcements = new_announcement env user dto estate_id ∷ db.announcements;
  })
  recipients ← gets (readers estate_id user.user_id)
  modify (dispatch_many recipients (event_of (new_announcement env user dto estate_id)))
  modify (
      log (record {
        action = AuditAction.announcement_posted dto.kind;
        user_id = some user.user_id;
        estate_id = some estate_id;
        entity_id = some env.new_id;
      }))
  pure (to_view (new_announcement env user dto estate_id))

abbrev pub same_kind : AnnouncementKind → AnnouncementKind → Bool
same_kind announcement announcement = true
same_kind security_alert security_alert = true
same_kind _ _ = false

-- `...(kind ? { kind } : {})`
abbrev pub of_kind : Option AnnouncementKind → Announcement → Bool
of_kind none a = true
of_kind (some k) a = same_kind a.kind k

-- `list`
unfoldable pub list :
    AuthenticatedUser → Option AnnouncementKind → Action Db (List AnnouncementView)
list user kind = do
  estate_id ← estate_of user
  gets (λ db.
      map to_view (
        take list_limit
          (select (λ a. a.estate_id == estate_id && of_kind kind a) db.announcements)))

abbrev pub is_post : ℕ → ℕ → Announcement → Bool
is_post id estate_id a = a.id == id && a.estate_id == estate_id

-- `remove`
unfoldable pub remove : AuthenticatedUser → ℕ → Action Db (Unit {0})
remove user id = do
  estate_id ← estate_of user
  count ← gets (λ db. count_where (is_post id estate_id) db.announcements)
  modify (λ db. record db {
    announcements = select (λ a. not (is_post id estate_id a)) db.announcements;
  })
  throw_if (count == 0) (not_found "Announcement not found.")
  modify (
      log (record {
        action = announcement_deleted;
        user_id = some user.user_id;
        estate_id = some estate_id;
        entity_id = some id;
      }))
