-- ===== src/Tokens.antt =====
-- Display codes: backend/src/common/crypto/token.util.ts. The bytes of a SHA-256 digest are a
-- parameter.
pub mod Codes
use entryva.Base.{ℕ, zero, suc, ◌%◌, List, [], ◌∷◌, map, take, Text, codes}

-- `DISPLAY_CODE_ALPHABET`
abbrev pub display_code_alphabet : Text
display_code_alphabet = codes "ABCDEFGHJKMNPQRSTUVWXYZ23456789"

-- `s[i]`; the position is below the length wherever this is called.
unfoldable pub char_at : Text → ℕ → ℕ
char_at [] i = 0
char_at (c ∷ cs) zero = c
char_at (c ∷ cs) (suc i) = char_at cs i

-- The character of a digest's byte.
unfoldable pub display_char : ℕ → ℕ
unfolding char_at
display_char byte = char_at display_code_alphabet (byte % 31)

-- `deriveDisplayCode`; `digest` gives the 32 bytes of SHA-256 of `display-code:` and the token.
unfoldable pub derive_display_code : (Text → List ℕ) → Text → Text
derive_display_code digest token = map display_char (take 6 (digest token))
