-- ===== src/Tests/Passes.antt =====
-- Examples for invitations, extensions and the sweep.
use entryva.Base.{
  [], ◌∷◌, find, ◌==◌, ◌≢◌, ◌≤◌, ◌⊎◌, ◌<◌, ◌≡◌, refl, false, arith, All, some, none, codes, whole,
  Text,
}
use entryva.Effects.{ok, err, not_found}
use entryva.Extension.{
  InvitationStatus, evaluate_amount, evaluate_number, evaluate_extension, in_quiet_hours,
}
use entryva.Store.{courier, Db, Notification, invitation_expired}
use entryva.Tokens.{derive_display_code}
use entryva.Verification.{view, outcome_of, verify_by_code}
use entryva.Invitations.{
  CreateInvitation, CreatedInvitation, PublicInvitation, resolve_visit_window, create_invitation,
  new_invitation, find_public_by_token,
}
use entryva.Invitations.Created.{display_code_opens}
use entryva.Invitations.Public.{open_link_twice}
use entryva.InvitationExpiry.{sweep}
use entryva.InvitationExpiry.Sweep.{sweep_complete}
use entryva.PassExtension.{scope_of, resolve_estate_id, write_extension, extend, update_rules}
use entryva.PassExtension.Granted.{Prolongs, extend-Prolongs}
use entryva.Tests.{
  sample_hash, sample_digest, sample_from_iso, sample_moment, sample_rules, sample_apartment,
  sample_invitation, sample_resident, sample_db, morning, noon, sample_officer,
}

abbrev courier_visit : CreateInvitation
courier_visit = record {
  visitor_name = codes "Bo";
  visitor_phone = none;
  visit_date = codes "1";
  start_time = codes "1";
  end_time = codes "2";
  visitor_type = some courier;
  entry_policy = none;
}

abbrev token : Text
token = codes "abcdefgh"

abbrev created_invitation : CreatedInvitation
created_invitation = record {
  invitation =
      new_invitation sample_hash sample_digest sample_from_iso morning sample_resident courier_visit
        sample_apartment token 461 462;
  display_code = derive_display_code sample_digest token;
  secure_token = token;
}

made :
    (create_invitation sample_hash sample_digest sample_from_iso morning sample_resident
      courier_visit token sample_db).0
    ≡ ok created_invitation
unfolding create_invitation resolve_visit_window
made = refl

abbrev stored : Db
stored =
    (create_invitation sample_hash sample_digest sample_from_iso morning sample_resident
      courier_visit token sample_db).1

display_code_opens_example :
    (verify_by_code sample_hash noon sample_officer created_invitation.display_code stored).0
    ≡ ok (record {
      outcome = outcome_of noon.now created_invitation.invitation;
      invitation = some (view created_invitation.invitation);
    })
display_code_opens_example =
    display_code_opens sample_hash sample_digest sample_from_iso morning sample_resident
      courier_visit token sample_db created_invitation made noon sample_officer
      created_invitation.display_code refl refl

-- The link of the sample invitation, opened at noon.
abbrev over : PublicInvitation
over = record {
  visitor_name = codes "Bo";
  resident_name = codes "Ada";
  apartment_label = codes "2";
  estate_name = some (codes "Palm");
  valid_from = 21600000;
  valid_until = 36000000;
  status = InvitationStatus.expired;
  display_code = derive_display_code sample_digest (codes "token");
}

opened : (find_public_by_token sample_hash sample_digest noon (codes "token") sample_db).0 ≡ ok over
unfolding find_public_by_token
opened = refl

open_link_twice_example :
    let token = codes "token" in
    let (once, first) = find_public_by_token sample_hash sample_digest noon token sample_db in
    let (again, second) = find_public_by_token sample_hash sample_digest noon token first in
    let message : Notification = record {
      user_id = sample_invitation.resident.user_id;
      event = invitation_expired 1 sample_invitation.visitor.full_name;
    } in
    (p : PublicInvitation) × (once ≡ ok p)
    × (again ≡ ok p)
    × (p.visitor_name ≡ sample_invitation.visitor.full_name)
    × (p.valid_until ≡ 36000000)
    × (36000000 < 39600000
        → InvitationStatus.active ≢ InvitationStatus.used
        → (p.status ≡ InvitationStatus.expired)
          × (find (λ x. x.secure_token_hash == sample_hash token) second.invitations
              ≡ some (record sample_invitation { status = InvitationStatus.expired }))
          × (first.notifications ≡ message ∷ [])
          × (second.notifications ≡ message ∷ message ∷ []))
    × ((39600000 ≤ 36000000) ⊎ (InvitationStatus.active ≡ InvitationStatus.used)
        → (p.status ≡ InvitationStatus.active) × (first ≡ sample_db) × (second ≡ sample_db))
open_link_twice_example =
    open_link_twice sample_hash sample_digest noon (codes "token") sample_db sample_invitation refl
      (λ e. absurd (cc (e))) (λ e. absurd (cc (e)))

sweep_complete_example :
    All
      (λ x. x.status ≡ InvitationStatus.active → 39600000 ≤ x.valid_until)
      (sweep false 39600000 sample_db).1.invitations
sweep_complete_example = sweep_complete 39600000 sample_db (omega arith)

half_an_hour :
    (extend sample_moment morning sample_resident 1 (whole 30) sample_db).0
    ≡ ok (37800000, InvitationStatus.active)
unfolding extend write_extension evaluate_extension evaluate_number evaluate_amount in_quiet_hours
half_an_hour = refl

extend-Prolongs_example :
    Prolongs sample_moment morning sample_resident 1
      (whole 30)
      sample_db
      37800000
      (extend sample_moment morning sample_resident 1 (whole 30) sample_db).1
extend-Prolongs_example =
    extend-Prolongs sample_moment morning sample_resident 1 (whole 30) sample_db
      (37800000, InvitationStatus.active) half_an_hour

unknown_pass :
    (extend sample_moment morning sample_resident 2 (whole 30) sample_db).0
    ≡ err (not_found "Invitation not found.")
unfolding extend
unknown_pass = refl

updated : (update_rules 12 none sample_rules sample_db).0 ≡ ok (sample_rules, codes "Africa/Lagos")
unfolding update_rules resolve_estate_id scope_of
updated = refl
