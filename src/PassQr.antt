-- ===== src/PassQr.antt =====
-- What a recurring pass's QR code holds: backend/src/modules/recurring-passes/recurring-qr.ts.
pub mod RoundTrip
use entryva.Base.{
  ℕ, ◌-◌, Bool, true, false, ◌&&◌, ◌||◌, not, ltb, leb, ◌==◌, if◌then◌else◌, Option, none, some,
  List, [], ◌∷◌, any, select, length, Text, text_eq, is_some,
}

pub record RecurringQr : Type 0 where
  pub token : Text
  pub code : Text

abbrev pub separator : ℕ
separator = 126

abbrev pub slash : ℕ
slash = 47

abbrev pub push_char : ℕ → List Text → List Text
push_char c [] = (c ∷ []) ∷ []
push_char c (t ∷ ts) = (c ∷ t) ∷ ts

-- `raw.split(c)`
unfoldable pub split : ℕ → Text → List Text
split sep [] = [] ∷ []
split sep (c ∷ cs) = let rest = split sep cs in if c == sep then [] ∷ rest else push_char c rest

-- `.filter(Boolean).pop() ?? ''`
abbrev pub is_empty : Text → Bool
is_empty [] = true
is_empty _ = false

unfoldable pub last_text : List Text → Text
last_text [] = []
last_text (t ∷ []) = t
last_text (t ∷ u ∷ ts) = last_text (u ∷ ts)

unfoldable pub last_part : Text → Text
last_part raw =
    if any (λ c. c == slash) raw
    then last_text (select (λ t. not (is_empty t)) (split slash raw))
    else raw

-- What stands before and after the first separator.
unfoldable pub cut : Text → Option (Text × Text)
cut [] = none
cut (c ∷ cs) =
    let rest = cut cs in
    if c == separator
    then some ([], cs)
    else elim rest [ none ↦ none | some p ↦ some (c ∷ p.0, p.1) ]

abbrev pub is_alphanumeric : ℕ → Bool
is_alphanumeric c = (leb 48 c && leb c 57) || ((leb 65 c && leb c 90) || (leb 97 c && leb c 122))

-- `/^[A-Za-z0-9_-]{16,128}$/`
abbrev pub is_token_char : ℕ → Bool
is_token_char c = is_alphanumeric c || (c == 95 || c == 45)

unfoldable pub is_token : Text → Bool
is_token t = not (any (λ c. not (is_token_char c)) t) && (leb 16 (length t) && leb (length t) 128)

-- `/^[A-Za-z0-9]{6,16}$/`
unfoldable pub is_code : Text → Bool
is_code t = not (any (λ c. not (is_alphanumeric c)) t) && (leb 6 (length t) && leb (length t) 16)

abbrev pub check_parts : Option (Text × Text) → Option RecurringQr
check_parts none = none
check_parts (some (token, code)) =
    if is_empty token || is_empty code
    then none
    else if is_token token
    then (if is_code code then some (record { token = token; code = code }) else none)
    else none

-- `parseRecurringQr`
unfoldable pub parse_recurring_qr : Text → Option RecurringQr
unfolding last_part cut
parse_recurring_qr raw = check_parts (cut (last_part raw))

abbrev pub text_of : Option Text → Text
text_of none = []
text_of (some t) = t

-- `digits.slice(-9)`
unfoldable pub last_nine : Text → Text
last_nine [] = []
last_nine (c ∷ cs) = let rest = last_nine cs in if leb (length (c ∷ cs)) 9 then c ∷ cs else rest

-- `phoneKey`
unfoldable pub phone_key : Option Text → Option Text
unfolding last_nine
phone_key phone =
    let digits = select (λ c. leb 48 c && leb c 57) (text_of phone) in
    if leb 7 (length digits) then some (last_nine digits) else none

-- `phoneKey(a) === phoneKey(b)`
abbrev pub same_key : Option Text → Option Text → Bool
same_key none none = true
same_key (some a) (some b) = text_eq a b
same_key _ _ = false
