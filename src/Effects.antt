-- ===== src/Effects.antt =====
-- Requests as actions on the database. A service method reads and writes tables and may throw an
-- HTTP exception; what was written before it threw stays, unless it ran in a transaction.
use entryva.Base.{Bool, Option, none, some, String, if◌then◌else◌, ◌≡◌, refl, ◌⊎◌, inl, inr, Text}

-- The exceptions of `@nestjs/common` that the services throw, with their messages.
pub data Exception : Type 0 where
  bad_request unauthorized forbidden not_found conflict gone : String → Exception
  -- Those with a message that is put together at run time.
  bad_request_with forbidden_with conflict_with : Text → Exception
  -- What the database client throws, which the server answers with 500.
  internal : String → Exception
  -- Prisma's P2002: a row with the same unique column exists.
  unique_violation : Exception

pub data Result {ℓ} (A : Type ℓ) : Type ℓ where
  ok : A → Result A
  err : Exception → Result A

abbrev pub Action : Type 0 → Type 0 → Type 0
Action S A = S → Result A × S

module _ {S A : Type 0} where
  abbrev pub pure : A → Action S A
  pure a s = (ok a, s)

  -- `throw e`
  abbrev pub throw : Exception → Action S A
  throw e s = (err e, s)

  abbrev pub gets : (S → A) → Action S A
  gets f s = (ok (f s), s)

  -- `if (!row) throw e`
  abbrev pub or_throw : Option A → Exception → Action S A
  or_throw none e s = (err e, s)
  or_throw (some a) e s = (ok a, s)

infixl 5 ◌>>=◌ ◌>>◌
abbrev pub ◌>>=◌ : {S A B : Type 0} → Action S A → (A → Action S B) → Action S B
◌>>=◌ m f s = let (r, s') = m s in elim r [ ok a ↦ f a s' | err e ↦ (err e, s') ]

abbrev pub ◌>>◌ : {S A B : Type 0} → Action S A → Action S B → Action S B
m >> k = m >>= λ _. k

module _ {S : Type 0} where
  -- `if (c) throw e`
  abbrev pub throw_if : Bool → Exception → Action S (Unit {0})
  throw_if c e s = (if c then err e else ok tt, s)

  abbrev pub modify : (S → S) → Action S (Unit {0})
  modify f s = (ok tt, f s)

  -- `if (c) await m`
  abbrev pub when : Bool → (S → S) → Action S (Unit {0})
  when c f s = (ok tt, if c then f s else s)

  -- `prisma.$transaction`: an exception takes every write back.
  abbrev pub transaction : {A : Type 0} → Action S A → Action S A
  transaction m s = let (r, s') = m s in elim r [ ok a ↦ (ok a, s') | err e ↦ (err e, s) ]

-- `try { … } catch (err) { throw f(err); }`
abbrev pub rethrow : {S A : Type 0} → (Exception → Exception) → Action S A → Action S A
rethrow f m s = let (r, s') = m s in elim r [ ok a ↦ (ok a, s') | err e ↦ (err (f e), s') ]

-- How an action ended.
pub Result-cases :
    {S A : Type 0} (r : Result A × S)
    → ((a : A) × (s : S) × (r ≡ (ok a, s))) ⊎ ((e : Exception) × (s : S) × (r ≡ (err e, s)))
Result-cases (ok a, s) = inl (a, s, refl)
Result-cases (err e, s) = inr (e, s, refl)
