-- ===== src/Store/Posts.antt =====
-- The messages between officers, and what is posted to an estate.
use entryva.Base.{ℕ, Option, Text}

pub record OfficerMessage : Type 0 where
  pub id : ℕ
  pub estate_id : ℕ
  pub from_user_id : ℕ
  pub to_user_id : ℕ
  pub body : Text
  pub read_at : Option ℕ
  pub created_at : ℕ

pub data AnnouncementKind : Type 0 where
  announcement security_alert : AnnouncementKind

pub record Announcement : Type 0 where
  pub id : ℕ
  pub estate_id : ℕ
  pub author_id : ℕ
  pub author_name : Text
  pub kind : AnnouncementKind
  pub title : Text
  pub body : Text
  pub created_at : ℕ
