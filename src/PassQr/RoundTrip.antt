-- ===== src/PassQr/RoundTrip.antt =====
-- A pass's QR text reads back as the token and the code it was made of: `parseRecurringQr` of
-- backend/src/modules/recurring-passes/recurring-qr.ts.
use entryva.Base.{
  ℕ, ◌≤◌, ◌≡◌, refl, ap, ◌∙◌, Bool, true, false, ◌||◌, not, arith, ◌==◌, Bool-cases, inl, inr, some,
  List, [], ◌∷◌, ◌++◌, any, select, length, ltb, Text,
}
use entryva.PassQr.{
  separator, slash, is_token, is_code, is_token_char, is_alphanumeric, is_empty, split, push_char,
  last_text, last_part, cut, check_parts, parse_recurring_qr,
}

any_append : (p : ℕ → Bool) (xs ys : Text) → any p (xs ++ ys) ≡ (any p xs || any p ys)
any_append p [] ys = refl
any_append p (x ∷ xs) ys = ground (arith, any_append p xs ys)

-- A text of token characters has neither a slash nor a separator.
token_plain :
    (t : Text)
    → any (λ c. not (is_token_char c)) t ≡ false
    → (any (λ c. c == slash) t ≡ false) × (any (λ c. c == separator) t ≡ false)
token_plain [] h = (refl, refl)
token_plain (c ∷ cs) h = ground (arith, token_plain cs)

code_plain :
    (t : Text) → any (λ c. not (is_alphanumeric c)) t ≡ false → any (λ c. c == slash) t ≡ false
code_plain [] h = refl
code_plain (c ∷ cs) h = ground (arith, code_plain cs)

cut-token :
    (t code : Text)
    → any (λ c. c == separator) t ≡ false
    → cut (t ++ separator ∷ code) ≡ some (t, code)
unfolding cut
cut-token [] code h = ground arith
cut-token (c ∷ cs) code h = ground (arith, cut-token cs code)

split_plain : (t : Text) → any (λ c. c == slash) t ≡ false → split slash t ≡ t ∷ []
unfolding split
split_plain [] h = refl
split_plain (c ∷ cs) h = ground (arith, split_plain cs)

split_some : (t : Text) → ltb 0 (length (split slash t)) ≡ true
unfolding split
split_some [] = ground arith
split_some (c ∷ cs) = elim (Bool-cases (c == slash)) [
  | inl e ↦ rw e (ground arith)
  | inr e ↦ rw e (push_some c (split slash cs))
]
  where
    push_some : (x : ℕ) (ts : List Text) → ltb 0 (length (push_char x ts)) ≡ true
    push_some x [] = ground arith
    push_some x (t ∷ ts) = ground arith

push-append :
    (c : ℕ) (ts us : List Text)
    → ltb 0 (length ts) ≡ true
    → push_char c (ts ++ us) ≡ push_char c ts ++ us
push-append c [] us h = absurd (ground arith)
push-append c (t ∷ ts) us h = refl

split-slash :
    (link t : Text)
    → any (λ c. c == slash) t ≡ false
    → split slash (link ++ slash ∷ t) ≡ split slash link ++ t ∷ []
unfolding split
split-slash [] t h = ground (arith, split_plain t h)
split-slash (c ∷ cs) t h =
    ground (arith, split-slash cs t h, push-append c (split slash cs) (t ∷ []) (split_some cs))

last_text-snoc : (ts : List Text) (t : Text) → last_text (ts ++ t ∷ []) ≡ t
unfolding last_text
last_text-snoc [] t = refl
last_text-snoc (u ∷ []) t = refl
last_text-snoc (u ∷ v ∷ ts) t = last_text-snoc (v ∷ ts) t

select-snoc :
    (ts : List Text) (t : Text)
    → is_empty t ≡ false
    → select (λ x. not (is_empty x)) (ts ++ t ∷ []) ≡ select (λ x. not (is_empty x)) ts ++ t ∷ []
select-snoc [] t h = rw h
select-snoc (u ∷ us) t h = elim (Bool-cases (is_empty u)) [
  | inl e ↦ rw e (select-snoc us t h)
  | inr e ↦ rw e (ap (◌∷◌ u) (select-snoc us t h))
]

last_text-select :
    (ts : List Text) (t : Text)
    → is_empty t ≡ false
    → last_text (select (λ x. not (is_empty x)) (ts ++ t ∷ [])) ≡ t
last_text-select ts t h =
    ap last_text (select-snoc ts t h) ∙ last_text-snoc (select (λ x. not (is_empty x)) ts) t

last_part-plain : (t : Text) → any (λ c. c == slash) t ≡ false → last_part t ≡ t
unfolding last_part
last_part-plain t h = rw h

last_part-link :
    (link t : Text)
    → any (λ c. c == slash) t ≡ false
    → is_empty t ≡ false
    → last_part (link ++ slash ∷ t) ≡ t
unfolding last_part
last_part-link link t h n =
    let slashed : any (λ c. c == slash) (link ++ slash ∷ t) ≡ true =
      any_append (λ c. c == slash) link (slash ∷ t) ∙ ground arith in
    rw slashed (
      ap (λ ts. last_text (select (λ x. not (is_empty x)) ts)) (split-slash link t h)
      ∙ last_text-select (split slash link) t n)

is_empty-length : (t : Text) → 1 ≤ length t → is_empty t ≡ false
is_empty-length [] h = absurd (omega arith)
is_empty-length (c ∷ cs) h = refl

is_empty-append : (t u : Text) → is_empty u ≡ false → is_empty (t ++ u) ≡ false
is_empty-append [] u h = h
is_empty-append (c ∷ cs) u h = refl

-- A token and a code of the right form, put together with the separator between them, are read
-- back as they were, also at the end of a link.
pub parse_recurring_qr-join :
    (token code link : Text)
    → is_token token ≡ true
    → is_code code ≡ true
    → (parse_recurring_qr (token ++ separator ∷ code)
        ≡ some (record { token = token; code = code }))
      × (parse_recurring_qr (link ++ slash ∷ (token ++ separator ∷ code))
          ≡ some (record { token = token; code = code }))
unfolding parse_recurring_qr is_token is_code
parse_recurring_qr-join token code link t c =
    let body = token ++ separator ∷ code in
    let (no_slash, no_separator) = token_plain token (ground arith) in
    let plain : any (λ x. x == slash) body ≡ false =
      any_append (λ x. x == slash) token (separator ∷ code) ∙ ground (arith, code_plain code) in
    let read : check_parts (cut body) ≡ some (record { token = token; code = code }) =
      ap check_parts (cut-token token code no_separator)
      ∙ ground (
        arith,
        is_empty-length token (ground arith),
        is_empty-length code (ground arith),
        t,
        c,
      ) in
    (
      ap (λ x. check_parts (cut x)) (last_part-plain body plain) ∙ read,
      ap (λ x. check_parts (cut x))
            (last_part-link link body plain (is_empty-append token (separator ∷ code) refl))
          ∙ read,
    )
