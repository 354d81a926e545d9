-- ===== src/Store/Passes.antt =====
-- The rows of recurring passes and their scans.
use entryva.Base.{ℕ, Bool, Option, List, Text}
use entryva.RecurringPass.{ScanDirection, ScanDenyReason, PassRules, PassException}

pub data RecurringPassRole : Type 0 where
  house_help driver cleaner delivery other : RecurringPassRole

-- `RecurringPass`; the columns that the rules read are `rules`, dates as their keys, and
-- `exceptions` are the rows that belong to it.
pub record RecurringPass : Type 0 where
  pub id : ℕ
  pub estate_id : ℕ
  pub resident_id : ℕ
  pub apartment_id : ℕ
  pub full_name : Text
  pub phone : Option Text
  pub role : RecurringPassRole
  pub rules : PassRules
  pub exceptions : List PassException
  -- The hash of the identifier of the first phone that opened the pass, and when it did.
  pub linked_device : Option ℕ
  pub linked_at : Option ℕ
  pub created_at : ℕ

-- `RecurringPassScan`; `allowed` is the result.
pub record RecurringPassScan : Type 0 where
  pub pass_id : ℕ
  pub officer_user_id : Option ℕ
  pub scanned_at : ℕ
  pub direction : Option ScanDirection
  pub allowed : Bool
  pub reason : Option ScanDenyReason

pub record EstateBlockedPerson : Type 0 where
  pub estate_id : ℕ
  pub phone : Text
