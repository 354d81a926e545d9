-- ===== src/ResidentPasses/Requests/Refines.antt =====
-- Any sequence of operations on recurring passes refines the abstract machine, and what follows.
use entryva.Base.{
  ℕ, ◌≤◌, ◌≡◌, ◌≢◌, refl, sym, subst, ◌∙◌, Bool, true, false, ◌||◌, inl, inr, Option, some, List,
  [], ◌∷◌, All, AtMostOne, find, Text, ap, eq_of_some,
}
use entryva.Calendar.{DateKey, Parts, local_moment}
use entryva.Calendar.Days.{IsDate}
use entryva.Effects.{ok}
use entryva.RecurringPass.{PassStatus, evaluate_pass}
use entryva.PassStanding.{Standing, RecurringScanResponse, decide}
use entryva.RecurringScan.{scan_pass}
use entryva.RecurringScan.Records.{scan_pass-first}
use entryva.Store.{
  RecurringPass, Db, Env, SecurityContext, recurring_pass_paused, recurring_pass_resumed,
  recurring_pass_revoked,
}
use entryva.ResidentPasses.Change
use entryva.ResidentPasses.Change.{is_active, is_paused, is_expired}
use entryva.ResidentPasses.Machine.{
  PassState, state_of, Step, Reach, here, Reach-revoked, WithinNinety, Reach-WithinNinety,
}
use entryva.ResidentPasses.Requests.{PassPlatform, PassRequest, serve_pass, serve_passes}
use entryva.ResidentPasses.Requests.Writes.{is_row, create-passes}
use entryva.ResidentPasses.Requests.Tracks.{
  Tracks, Tracks-of_eq, Tracks-insert, set_status-Tracks, skip_day-Tracks, add_extra_day-Tracks,
  remove_exception-Tracks, reset_phone-Tracks, public_view-Tracks, renew-Tracks,
}

-- The requests that are followed: a new pass has another id, a renewal asks for at least a day
-- (`RenewPassDto`), and a phone is reset only where `resets` says so.
abbrev pub IsAdmissible : Bool → ℕ → PassRequest → Type 0
IsAdmissible resets x (PassRequest.create env ctx dto token) = env.new_id ≢ x
IsAdmissible resets x (PassRequest.renew env ctx id days) = 1 ≤ days
IsAdmissible resets x (PassRequest.reset_phone ctx id) = resets ≡ true
IsAdmissible resets x _ = Unit

active_of : (t : PassStatus) → is_active t ≡ true → t ≡ PassStatus.active
active_of PassStatus.active h = refl
active_of PassStatus.paused h = cc
active_of PassStatus.revoked h = cc
active_of PassStatus.expired h = cc

paused_of : (t : PassStatus) → is_paused t ≡ true → t ≡ PassStatus.paused
paused_of PassStatus.active h = cc
paused_of PassStatus.paused h = refl
paused_of PassStatus.revoked h = cc
paused_of PassStatus.expired h = cc

not_revoked_of :
    (t : PassStatus)
    → (is_active t || (is_paused t || is_expired t)) ≡ true
    → t ≢ PassStatus.revoked
not_revoked_of PassStatus.active h e = cc
not_revoked_of PassStatus.paused h e = cc
not_revoked_of PassStatus.revoked h e = cc
not_revoked_of PassStatus.expired h e = cc

module _ (o : PassPlatform)
    (dates : (zone : Text) (now : ℕ) → IsDate (local_moment o.format_to_parts zone now).date)
    (resets : Bool) (x : ℕ) (s : PassState) where
  serve_pass-Tracks :
      (r : PassRequest) (db : Db)
      → IsAdmissible resets x r
      → Tracks resets x s db
      → Tracks resets x s (serve_pass o r db)
  unfolding serve_pass Change.pause Change.resume Change.revoke
  serve_pass-Tracks (PassRequest.create env ctx dto token) db a t =
      elim (create-passes o.hash o.format_to_parts env ctx dto token db) [
        | inl same ↦ Tracks-of_eq resets x s db _ same t
        | inr (p, new, w) ↦ Tracks-insert resets x s p db _ (λ e. a (sym new ∙ e)) w t
      ]
  serve_pass-Tracks (PassRequest.pause ctx id) db a t =
      set_status-Tracks resets x s db t ctx id is_active PassStatus.paused recurring_pass_paused _
        (λ e. Step.pause (state_of t.row) (active_of _ e))
  serve_pass-Tracks (PassRequest.resume ctx id) db a t =
      set_status-Tracks resets x s db t ctx id is_paused PassStatus.active recurring_pass_resumed _
        (λ e. Step.resume (state_of t.row) (paused_of _ e))
  serve_pass-Tracks (PassRequest.revoke ctx id) db a t =
      set_status-Tracks resets x s db t ctx id (λ u. is_active u || (is_paused u || is_expired u))
        PassStatus.revoked recurring_pass_revoked _
        (λ e. Step.revoke (state_of t.row) (not_revoked_of _ e))
  serve_pass-Tracks (PassRequest.skip_day env ctx id date) db a t =
      skip_day-Tracks resets x s db t o.format_to_parts env ctx id date
  serve_pass-Tracks (PassRequest.add_extra_day env ctx id dto) db a t =
      add_extra_day-Tracks resets x s db t o.format_to_parts env ctx id dto
  serve_pass-Tracks (PassRequest.remove_exception ctx id date) db a t =
      remove_exception-Tracks resets x s db t ctx id date
  serve_pass-Tracks (PassRequest.renew env ctx id days) db a t =
      renew-Tracks resets x s db t o.format_to_parts dates env ctx id days a
  serve_pass-Tracks (PassRequest.reset_phone ctx id) db a t =
      reset_phone-Tracks resets x s db t ctx id a
  serve_pass-Tracks (PassRequest.open_page env token device) db a t =
      public_view-Tracks resets x s db t o.hash o.hmac_hex o.format_to_parts env token device

  pub serve_passes-Tracks :
      (rs : List PassRequest) (db : Db)
      → All (IsAdmissible resets x) rs
      → Tracks resets x s db
      → Tracks resets x s (serve_passes o rs db)
  unfolding serve_passes
  serve_passes-Tracks [] db a t = t
  serve_passes-Tracks (r ∷ rs) db a t =
      serve_passes-Tracks rs (serve_pass o r db) a.1 (serve_pass-Tracks r db a.0 t)

decide-revoked :
    (hmac_hex : ℕ → DateKey → Text) (format_to_parts : Text → ℕ → Parts) (env : Env)
    (pass : RecurringPass) (code : Text) (st : Standing)
    → pass.rules.status ≡ PassStatus.revoked
    → (decide hmac_hex format_to_parts env pass code st).allowed ≡ false
unfolding decide evaluate_pass
decide-revoked hmac_hex format_to_parts env pass code st h = rw h refl

module _ (o : PassPlatform)
    (dates : (zone : Text) (now : ℕ) → IsDate (local_moment o.format_to_parts zone now).date)
    (x : ℕ) (db : Db) (p : RecurringPass) (rs : List PassRequest)
    (unique : AtMostOne (is_row x) db.recurring_passes)
    (found : find (is_row x) db.recurring_passes ≡ some p)
    (admissible : All (IsAdmissible true x) rs) where
  start : Tracks true x (state_of p) db
  start = record { row = p; found = found; reached = here; unique = unique }

  -- The passes refine the abstract machine: after any sequence of requests (new passes under other
  -- ids, pauses, resumptions, revocations, skipped and extra days, renewals by at least a day, phone
  -- resets and openings of pages), a row that is the only one with its id is still there, and the
  -- machine has a way from its state before to its state after. Clocks are assumed to give dates of
  -- the calendar.
  pub serve_passes-Reach :
      (q : RecurringPass) × (find (is_row x) (serve_passes o rs db).recurring_passes ≡ some q)
      × Reach true (state_of p) (state_of q)
  serve_passes-Reach =
      let t = serve_passes-Tracks o dates true x (state_of p) rs db admissible start in
      (t.row, t.found, t.reached)

  -- A pass that lasts from one day to ninety, the only one with its id, still does after any such
  -- sequence of requests.
  serve_passes-WithinNinety :
      (q : RecurringPass)
      → WithinNinety (state_of p)
      → find (is_row x) (serve_passes o rs db).recurring_passes ≡ some q
      → WithinNinety (state_of q)
  serve_passes-WithinNinety q w f =
      let (r, e, reached) = serve_passes-Reach in
      let same : r ≡ q = eq_of_some r q (sym e ∙ f) in
      subst (λ y. WithinNinety (state_of y)) same (Reach-WithinNinety w reached)

  -- A revoked pass, the only one with its id, stays revoked after any such sequence of requests, and no
  -- later scan of it is answered with an entry, unless as the repeat of one allowed seconds before.
  pub serve_passes-revoked :
      (q : RecurringPass) (env : Env) (ctx : SecurityContext) (user_id : Option ℕ) (code : Text)
      (later : Db) (r : RecurringScanResponse)
      → p.rules.status ≡ PassStatus.revoked
      → find (is_row x) (serve_passes o rs db).recurring_passes ≡ some q
      → (scan_pass o.hash o.hmac_hex o.format_to_parts env ctx user_id q code later).0 ≡ ok r
      → r.duplicate ≡ false
      → (q.rules.status ≡ PassStatus.revoked) × (r.allowed ≡ false)
  serve_passes-revoked q env ctx user_id code later r h f scanned first =
      let (y, e, reached) = serve_passes-Reach in
      let same : y ≡ q = eq_of_some y q (sym e ∙ f) in
      let dead : q.rules.status ≡ PassStatus.revoked =
        subst (λ z. z.rules.status ≡ PassStatus.revoked) same (Reach-revoked h reached) in
      let (answer, _) =
        scan_pass-first o.hash o.hmac_hex o.format_to_parts env ctx user_id q code later r scanned
          first in
      (
        dead,
        ap (λ (a : RecurringScanResponse). a.allowed) answer
            ∙ decide-revoked o.hmac_hex o.format_to_parts env q code _ dead,
      )
