-- ===== src/Tests/Gate.antt =====
-- Examples for scans, entries and exits at the gate.
use entryva.Base.{
  none, true, whole, false, ◌≡◌, ◌≢◌, refl, AtMostOne, ◌==◌, some, List, [], ◌∷◌, codes, ◌↔◌,
}
use entryva.Effects.{ok, err, conflict, forbidden}
use entryva.Store.{Invitation, Db, qr, VerificationOutcome, not_found, wrong_estate}
use entryva.Verification.{verify_by_code, evaluate_and_record}
use entryva.Verification.Outcome.{Attempt, OwnScan, evaluate_and_record_writes}
use entryva.Verification.Isolation.{own_estate, verify_by_code-own_estate}
use entryva.EntryExit.{enter, claim, record_entry}
use entryva.EntryExit.Atomic.{MayEnter, record_entry_atomic, record_entry-ok_iff}
use entryva.EntryExit.Inside.{OnceInside, record_entry-OnceInside}
use entryva.Lifecycle.{Platform, Request, serve_all}
use entryva.Lifecycle.Spent.{visits_of}
use entryva.Lifecycle.OneTime.{one_time_enters_once}
use entryva.Tests.{
  sample_hash, sample_digest, sample_from_iso, sample_moment, sample_invitation, sample_db, morning,
  noon, sample_officer, sample_resident,
}

abbrev sample_platform : Platform
sample_platform = record {
  hash = sample_hash;
  digest = sample_digest;
  from_iso = sample_from_iso;
  local_moment = sample_moment;
}

-- The database after the visitor has come in.
abbrev entered_db : Db
entered_db = (record_entry morning sample_officer 1 sample_db).1

entered_first : (record_entry morning sample_officer 1 sample_db).0 ≡ ok (100, 25200000)
unfolding record_entry enter claim
entered_first = refl

entered_again :
    (record_entry morning sample_officer 1 entered_db).0
    ≡ err (conflict "This one-time invitation has already been used.")
unfolding record_entry enter claim
entered_again = refl

-- At noon the pass is over.
too_late :
    (record_entry noon sample_officer 1 sample_db).0
    ≡ err (forbidden "This invitation has expired.")
unfolding record_entry enter
too_late = refl

abbrev later_requests : List Request
later_requests =
    Request.verify_by_code noon sample_officer (codes " abcdef")
    ∷ Request.record_exit noon sample_officer 100
    ∷ Request.record_entry noon sample_officer 1
    ∷ Request.extend morning sample_resident 1 (whole 30)
    ∷ Request.sweep false 90000000
    ∷ []

unique_rows : AtMostOne (λ x. x.id == 1) sample_db.invitations
unique_rows = (λ e. tt, tt)

one_time_enters_once_example :
    let entered = (record_entry morning sample_officer 1 sample_db).1 in
    (visits_of 1 (serve_all sample_platform later_requests entered) ≡ visits_of 1 entered)
    × ((record_entry morning sample_officer 1 (serve_all sample_platform later_requests entered)).0
        ≢ ok (100, 25200000))
one_time_enters_once_example =
    one_time_enters_once sample_platform 1 sample_db morning sample_officer (100, 25200000)
      sample_invitation later_requests morning sample_officer (100, 25200000) unique_rows refl refl
      entered_first (tt, (tt, (tt, (tt, (tt, tt)))))

record_entry-ok_iff_example :
    ((record_entry morning sample_officer 1 sample_db).0 ≡ ok (100, 25200000))
    ↔ (i : Invitation) × MayEnter morning sample_officer 1 sample_db i
record_entry-ok_iff_example = record_entry-ok_iff morning sample_officer 1 sample_db

record_entry_atomic_example : (record_entry noon sample_officer 1 sample_db).1 ≡ sample_db
record_entry_atomic_example =
    record_entry_atomic noon sample_officer 1 sample_db (forbidden "This invitation has expired.")
      too_late

record_entry-OnceInside_example : OnceInside (record_entry morning sample_officer 1 sample_db).1
record_entry-OnceInside_example =
    record_entry-OnceInside morning sample_officer 1 sample_db (λ id. tt)

verify_by_code-own_estate_example :
    (verify_by_code sample_hash morning sample_officer (codes "abcdef ") sample_db).0
    ≡ (verify_by_code sample_hash morning sample_officer
        (codes "abcdef ")
        (own_estate 1 sample_db)).0
verify_by_code-own_estate_example =
    verify_by_code-own_estate sample_hash morning sample_officer (codes "abcdef ") sample_db

evaluate_and_record_writes_example :
    (sample_invitation.estate_id ≡ sample_officer.estate_id
      → (o : VerificationOutcome) × OwnScan noon sample_officer sample_invitation qr false sample_db
          o)
    × (sample_invitation.estate_id ≢ sample_officer.estate_id
        → Attempt noon sample_officer sample_invitation qr false sample_db wrong_estate not_found
            true none
          × ((evaluate_and_record noon sample_officer (some sample_invitation) qr false sample_db).0
              ≡ ok (record { outcome = not_found; invitation = none }))
          × ((evaluate_and_record noon sample_officer
                (some sample_invitation)
                qr
                false
                sample_db).1.invitations
              ≡ sample_invitation ∷ [])
          × ((evaluate_and_record noon sample_officer
                (some sample_invitation)
                qr
                false
                sample_db).1.notifications
              ≡ []))
evaluate_and_record_writes_example =
    evaluate_and_record_writes noon sample_officer sample_invitation qr false sample_db
