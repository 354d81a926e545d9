-- ===== src/Invitations/Created.antt =====
-- What a resident is given opens the gate: the code, the token and the link all lead to the
-- invitation that was created.
use entryva.Base.{
  ℕ, ◌<◌, ◌≡◌, true, arith, Option, some, List, ◌∷◌, Text, to_upper, trim, ◌==◌, ◌&&◌, find,
  find_head, find_sound, Bool, false, Option-cases, inl, inr, sym, ap, ◌∙◌,
}
use entryva.Effects.{ok}
use entryva.Extension.{InvitationStatus, one_time}
use entryva.Store.{courier, Apartment, Invitation, Db, Env, SecurityContext, ResidentContext}
use entryva.Tokens.{derive_display_code}
use entryva.Tokens.Codes.{derive_display_code_normal}
use entryva.Verification.{view, outcome_of, verify_by_qr, verify_by_code}
use entryva.Verification.Outcome.{own_answer}
use entryva.Invitations.{
  CreateInvitation, CreatedInvitation, resolve_visit_window, create_invitation,
}

module _ (hash : Text → ℕ) (digest : Text → List ℕ) (from_iso : Text → Text → Option ℕ) (env : Env)
    (ctx : ResidentContext) (dto : CreateInvitation) (token : Text) (db : Db)
    (c : CreatedInvitation)
    (made : (create_invitation hash digest from_iso env ctx dto token db).0 ≡ ok c) where
  abbrev stored : Db
  stored = (create_invitation hash digest from_iso env ctx dto token db).1

  -- The invitation that was created is active, of the resident's estate and apartment, for a visit
  -- that ends after it starts, for one entry if it is a courier's, and the one new row of the table;
  -- the resident is given the token and the code derived from it, and the row has their hashes.
  create_invitation-ok :
      (c.invitation.status ≡ InvitationStatus.active)
      × (c.invitation.estate_id ≡ ctx.estate_id)
      × (c.invitation.apartment.id ≡ ctx.apartment_id)
      × (c.invitation.valid_from < c.invitation.valid_until)
      × (dto.visitor_type ≡ some courier → c.invitation.entry_policy ≡ one_time)
      × (stored.invitations ≡ c.invitation ∷ db.invitations)
      × (c.secure_token ≡ token)
      × (c.display_code ≡ derive_display_code digest token)
      × (c.invitation.secure_token_hash ≡ hash token)
      × (c.invitation.display_code_hash ≡ hash c.display_code)
  unfolding create_invitation resolve_visit_window
  create_invitation-ok = elim (Option-cases (find flat_of db.apartments)) [
    | inl e ↦ absurd (ground arith)
    | inr (a, e) ↦ ground (arith, find_sound flat_of db.apartments a e)
  ]
    where
      flat_of : Apartment → Bool
      flat_of a = a.id == ctx.apartment_id && a.estate_id == ctx.estate_id

  -- Until the next change, an officer of the estate who types the display code, in any case and
  -- with spaces around it, is shown the invitation, with the outcome of the moment.
  pub display_code_opens :
      (now : Env) (officer : SecurityContext) (typed : Text)
      → officer.estate_id ≡ ctx.estate_id
      → to_upper (trim typed) ≡ to_upper (trim c.display_code)
      → (verify_by_code hash now officer typed stored).0
        ≡ ok (record {
          outcome = outcome_of now.now c.invitation;
          invitation = some (view c.invitation);
        })
  unfolding verify_by_code
  display_code_opens now officer typed same code =
      let (_, estate, _, _, _, rows, _, shown, _, hashed) = create_invitation-ok in
      let normal : to_upper (trim typed) ≡ c.display_code =
        code ∙ rw shown (derive_display_code_normal digest token) in
      let wanted = λ (x : Invitation).
        x.estate_id == officer.estate_id && x.display_code_hash == hash (to_upper (trim typed)) in
      let hit : wanted c.invitation ≡ true = ground (arith, ap hash normal) in
      own_answer now officer _ c.invitation _ false stored
        (ap (find wanted) rows ∙ find_head wanted c.invitation db.invitations hit)
        (estate ∙ sym same)

  -- Until the next change, an officer of the estate whose scan is of the token is shown the
  -- invitation, with the outcome of the moment.
  secure_token_opens :
      (now : Env) (officer : SecurityContext) (offline : Bool)
      → officer.estate_id ≡ ctx.estate_id
      → (verify_by_qr hash now officer c.secure_token offline stored).0
        ≡ ok (record {
          outcome = outcome_of now.now c.invitation;
          invitation = some (view c.invitation);
        })
  unfolding verify_by_qr
  secure_token_opens now officer offline same =
      let (_, estate, _, _, _, rows, same_token, _, hashed, _) = create_invitation-ok in
      let wanted = λ (x : Invitation). x.secure_token_hash == hash c.secure_token in
      let hit : wanted c.invitation ≡ true = ground (arith, ap hash same_token) in
      own_answer now officer _ c.invitation _ offline stored
        (ap (find wanted) rows ∙ find_head wanted c.invitation db.invitations hit)
        (estate ∙ sym same)
