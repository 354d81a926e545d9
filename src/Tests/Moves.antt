-- ===== src/Tests/Moves.antt =====
-- Examples for resident invites, calls and live positions.
use entryva.Base.{
  find, ◌==◌, ◌+◌, ◌-◌, ◌/◌, ◌≡◌, ◌≢◌, refl, true, false, arith, none, some, [], ◌∷◌, codes,
  text_eq,
}
use entryva.Effects.{ok}
use entryva.Emergency.{AuthenticatedUser}
use entryva.Store.{estate_admin, InviteStatus, ResidentInvite, sent, Db, Env, Apartment}
use entryva.ResidentInvites.{CreateResidentInvite, resolve_estate_id, create_invite, resend_invite}
use entryva.ResidentInvites.Public.{
  CompleteResidentInvite, find_live_invite, create_resident, complete_invite,
}
use entryva.ResidentInvites.MovedIn.{InviteRequest, serve_invites}
use entryva.ResidentInvites.Homes.{home_given_once}
use entryva.ResidentInvites.Live.{OneLive, create_invite-OneLive, resend_invite-revives}
use entryva.Calls.{OfficerSocket, Gateway}
use entryva.Calls.Relay.{fresh_gateway}
use entryva.LiveTracking.{
  LivePosition, LiveLocationResponse, save_live_position, get_live_for_resident,
}
use entryva.LiveTracking.Shown.{save-get}
use entryva.Tests.{sample_hash, sample_db, sample_apartment, sample_invitation, morning, noon}

abbrev eve : AuthenticatedUser
eve = record {
  user_id = 12;
  role = estate_admin;
  display_name = codes "Eve";
  estate_id = some 1;
  apartment_id = none;
}

abbrev vacant : Apartment
vacant = record sample_apartment { occupied = false }

-- Two invites for one home: the first was revoked when the second was made.
abbrev first_invite : ResidentInvite
first_invite = record {
  id = 80;
  estate_id = 1;
  apartment_id = 5;
  email = codes "ola@palm.ng";
  token_hash = sample_hash (codes "one");
  status = InviteStatus.revoked;
  expires_at = 30000000;
  invited_by_id = 12;
  used_at = none;
}

abbrev second_invite : ResidentInvite
second_invite = record first_invite {
  id = 81;
  email = codes "tobi@palm.ng";
  token_hash = sample_hash (codes "two");
  status = InviteStatus.pending;
}

abbrev inviting : Db
inviting = record sample_db {
  apartments = vacant ∷ [];
  resident_invites = second_invite ∷ first_invite ∷ [];
}

abbrev tobi : CompleteResidentInvite
tobi = record { display_name = codes "Tobi"; phone = none; password = codes "long-secret" }

moved_in : (complete_invite sample_hash (λ t. t) morning 90 (codes "two") tobi inviting).0 ≡ ok 100
unfolding complete_invite find_live_invite create_resident text_eq
moved_in = refl

home_given_once_example :
    let once = (complete_invite sample_hash (λ t. t) morning 90 (codes "two") tobi inviting).1 in
    let last =
      serve_invites sample_hash
        (λ t. t)
        (InviteRequest.resend noon eve none 80 (codes "three") sent ∷ [])
        once in
    let (answer, unchanged) =
      complete_invite sample_hash (λ t. t) noon 91 (codes "three") tobi last in
    (answer ≢ ok 101) × (unchanged ≡ last)
unfolding complete_invite find_live_invite create_resident serve_invites resend_invite
    resolve_estate_id text_eq
home_given_once_example =
    home_given_once sample_hash (λ t. t) morning noon 90 91 100 101 (codes "two") (codes "three")
      tobi tobi inviting second_invite
      (record first_invite {
        token_hash = sample_hash (codes "three");
        status = InviteStatus.pending;
        expires_at = 46800000;
      })
      (InviteRequest.resend noon eve none 80 (codes "three") sent ∷ []) refl moved_in refl refl

abbrev for_flat : CreateResidentInvite
for_flat = record { apartment_id = 5; email = codes "zoe@palm.ng" }

one_waits : OneLive inviting
one_waits a = ground arith

create_invite-OneLive_example :
    OneLive (create_invite sample_hash morning eve none for_flat (codes "four") sent inviting).1
create_invite-OneLive_example =
    create_invite-OneLive sample_hash morning eve none for_flat (codes "four") sent inviting
      one_waits

resend_invite-revives_example :
    let after = (resend_invite sample_hash morning eve none 80 (codes "three") sent inviting).1 in
    (k : ResidentInvite) × (find (λ y. y.id == 80) after.resident_invites ≡ some k)
    × (k.status ≡ InviteStatus.pending)
    × (k.apartment_id ≡ second_invite.apartment_id)
    × (k.token_hash ≡ sample_hash (codes "three"))
    × (find (λ y. y.id == second_invite.id) after.resident_invites ≡ some second_invite)
    × (second_invite.id ≢ 80)
    × (¬ OneLive after)
unfolding resend_invite resolve_estate_id
resend_invite-revives_example =
    resend_invite-revives sample_hash morning eve none 80 (codes "three") sent inviting
      (record {
        id = 80;
        email = codes "ola@palm.ng";
        expires_at = 32400000;
        token = codes "three";
        email_status = sent;
      })
      second_invite first_invite one_waits refl refl refl refl refl refl

-- An officer with two sockets, and a colleague.
abbrev old_socket : OfficerSocket
old_socket = record { socket_id = 1; user_id = 20; estate_id = 1; display_name = codes "Sam" }

abbrev new_socket : OfficerSocket
new_socket = record old_socket { socket_id = 2 }

abbrev colleague : OfficerSocket
colleague = record { socket_id = 3; user_id = 21; estate_id = 1; display_name = codes "Lou" }

abbrev at_gate : Gateway
at_gate = record fresh_gateway {
  presence = record { estate_id = 1; socket_id = 2; user_id = 20; display_name = codes "Sam" } ∷ [];
  sockets = new_socket ∷ old_socket ∷ colleague ∷ [];
}

abbrev here : LivePosition
here = record { lat = 64000; lng = 34000; heading = none; accuracy_m = some 12 }

abbrev a_minute_later : Env
a_minute_later = record { now = 25260000; new_id = 102 }

save-get_example :
    let after = (save_live_position sample_hash morning (codes "token") here sample_db).1 in
    (r : LiveLocationResponse) × ((get_live_for_resident a_minute_later 1 10
        (record after { users = [] })).0
      ≡ ok r)
    × (r.sharing ≡ true)
    × (r.position
        ≡ some (record {
          lat = 64000;
          lng = 34000;
          heading = none;
          accuracy_m = some 12;
          updated_at = 25200000;
          age_seconds = (25260000 - 25200000 + 500) / 1000;
        }))
unfolding save_live_position
save-get_example =
    save-get sample_hash morning a_minute_later (codes "token") here sample_db
      (record (save_live_position sample_hash morning (codes "token") here sample_db).1 {
        users = [];
      })
      sample_invitation refl refl refl (omega arith) refl
