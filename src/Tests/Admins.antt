-- ===== src/Tests/Admins.antt =====
-- Examples for the residents of an estate.
use mathlib.Core.List.{Memᴰ}
use entryva.Base.{find, ◌==◌, ◌≡◌, refl, false, none, some, List, [], ◌∷◌, codes, text_eq}
use entryva.Effects.{ok}
use entryva.Emergency.{AuthenticatedUser}
use entryva.Store.{estate_admin, UserStatus, Apartment, ResidentProfile, Db}
use entryva.Administration.{
  UpdateResident, resolve_estate_id, update_resident, update_resident_status, remove_resident,
}
use entryva.Administration.Kept.{Marked}
use entryva.Administration.Requests.{
  AdminPlatform, AdminRequest, AllAdmissible, serve_admin, serve_admins, serve_admins-Marked,
}
use entryva.Administration.Revived.{update_resident_status-unmarked}
use entryva.Tests.{sample_hash, sample_db, sample_apartment, sample_resident}

abbrev server : AdminPlatform
server = record {
  hash = sample_hash;
  hash_password = λ t. t;
  compare_password = text_eq;
  issue_tokens = λ u n. record { access_token = codes "access"; refresh_token = u ∷ n ∷ [] };
}

abbrev eve : AuthenticatedUser
eve = record {
  user_id = 12;
  role = estate_admin;
  display_name = codes "Eve";
  estate_id = some 1;
  apartment_id = none;
}

-- Ada lives in the first apartment, and the second is vacant.
abbrev second_apartment : Apartment
second_apartment = record sample_apartment { id = 6; flat_number = codes "3"; occupied = false }

abbrev housed : Db
housed = record sample_db { apartments = sample_apartment ∷ second_apartment ∷ [] }

abbrev move : UpdateResident
move = record { display_name = none; phone = none; apartment_id = some 6 }

-- Ada moves, and is removed then.
abbrev departure : List AdminRequest
departure =
    AdminRequest.update eve none 10 move
    ∷ AdminRequest.remove eve none 10 (codes "secret-pass")
    ∷ []

departure-AllAdmissible : AllAdmissible server departure housed
unfolding serve_admin update_resident remove_resident resolve_estate_id text_eq
departure-AllAdmissible = (
  (λ k. (λ e. tt, tt), λ k. (λ e. tt, tt)),
  tt,
  ((λ k. (λ e. tt, tt), λ k. (λ e. tt, tt)), tt, tt),
)

serve_admins-Marked_example : Marked (serve_admins server departure housed)
serve_admins-Marked_example =
    serve_admins-Marked server departure housed departure-AllAdmissible (refl, (refl, tt))

-- Ada was removed.
abbrev gone : ResidentProfile
gone = record sample_resident { user_status = UserStatus.removed }

abbrev emptied : Db
emptied = record sample_db {
  apartments = second_apartment ∷ [];
  residents = record gone { apartment_id = 6 } ∷ [];
}

update_resident_status-unmarked_example :
    let (answer, after) = update_resident_status eve none 10 UserStatus.active emptied in
    (answer ≡ ok tt)
    × (find (λ x. x.id == 6) after.apartments ≡ some second_apartment)
    × Memᴰ (record gone { apartment_id = 6; user_status = UserStatus.active }) after.residents
    × (¬ Marked after)
unfolding resolve_estate_id
update_resident_status-unmarked_example =
    update_resident_status-unmarked eve none 10 1 emptied (record gone { apartment_id = 6 })
      second_apartment (refl, tt) refl refl refl refl refl
