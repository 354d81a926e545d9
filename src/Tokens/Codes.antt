-- ===== src/Tokens/Codes.antt =====
-- A display code reads back as it is shown, in any case and with spaces around it.
use entryva.Base.{
  ℕ, zero, suc, ◌%◌, ◌<◌, ◌≡◌, refl, ap₂, Bool, true, arith, not, ◌&&◌, ◌==◌, List, [], ◌∷◌, map,
  any, length, take, Text, is_space, upper, to_upper, trim, NoSpace, trim_id,
}
use entryva.Tokens.{display_code_alphabet, char_at, display_char, derive_display_code}

-- A capital or a digit: neither white space nor changed by `toUpperCase`.
abbrev is_plain : ℕ → Bool
is_plain c = not (is_space c) && upper c == c

abbrev plain_text : Text → Bool
plain_text s = not (any (λ c. not (is_plain c)) s)

char_at_plain :
    (s : Text) (i : ℕ) → plain_text s ≡ true → i < length s → is_plain (char_at s i) ≡ true
unfolding char_at
char_at_plain [] i h below = absurd (omega arith)
char_at_plain (c ∷ s) zero h below = ground arith
char_at_plain (c ∷ s) (suc i) h below = char_at_plain s i (ground arith) (omega arith)

display_char_plain : (b : ℕ) → is_plain (display_char b) ≡ true
unfolding display_char
display_char_plain b = char_at_plain display_code_alphabet (b % 31) refl (omega arith)

chars_NoSpace : (bytes : List ℕ) → NoSpace (map display_char bytes)
chars_NoSpace [] = tt
chars_NoSpace (b ∷ bs) = (ground (arith, display_char_plain b), chars_NoSpace bs)

chars_upper : (bytes : List ℕ) → to_upper (map display_char bytes) ≡ map display_char bytes
unfolding to_upper
chars_upper [] = refl
chars_upper (b ∷ bs) =
    let same : upper (display_char b) ≡ display_char b = ground (arith, display_char_plain b) in
    ap₂ ◌∷◌ same (chars_upper bs)

-- The normal form that the gate makes of a typed code leaves a display code as it is.
pub derive_display_code_normal :
    (digest : Text → List ℕ) (token : Text)
    → to_upper (trim (derive_display_code digest token)) ≡ derive_display_code digest token
unfolding derive_display_code
derive_display_code_normal digest token =
    let bytes = take 6 (digest token) in
    rw (trim_id (map display_char bytes) (chars_NoSpace bytes)) (chars_upper bytes)
