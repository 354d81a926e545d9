-- ===== src/Base/Strings.antt =====
-- Text as the list of its character codes, with the string methods that the program calls.
use Prim.Native.Nat.{ℕ, ◌-◌}
use Prim.Native.Char.{code}
use Prim.Native.String.{String}
use mathlib.Core.Path.{◌≡◌, refl}
use mathlib.Core.Logic.{◌↔◌}
use mathlib.Core.Bool.{Bool, true, false, ◌&&◌, ◌||◌}
use mathlib.Core.List.{List, [], ◌∷◌, ◌++◌, ◌++◌, map, reverse, reverse-cons, reverse-reverse}
use native.Mathlib.Omega.{arith}
use entryva.Base.Tests.{leb, ◌==◌, if◌then◌else◌}

abbrev pub Text : Type 0
Text = List ℕ

-- The codes of a literal.
abbrev pub codes : String → Text
codes String.[] = []
codes (String.◌∷◌ c s) = code c ∷ codes s

-- `a === b`
unfoldable pub text_eq : Text → Text → Bool
text_eq [] [] = true
text_eq [] (y ∷ ys) = false
text_eq (x ∷ xs) [] = false
text_eq (x ∷ xs) (y ∷ ys) = x == y && text_eq xs ys

pub text_eq_iff : (s t : Text) → (text_eq s t ≡ true) ↔ (s ≡ t)
unfolding text_eq
text_eq_iff [] [] = ground arith
text_eq_iff [] (y ∷ ys) = ground arith
text_eq_iff (x ∷ xs) [] = ground arith
text_eq_iff (x ∷ xs) (y ∷ ys) = ground (arith, text_eq_iff xs ys)

-- The white space of ASCII, and the no-break space.
abbrev pub is_space : ℕ → Bool
is_space c = (leb 9 c && leb c 13) || c == 32 || c == 160

trim_start : Text → Text
trim_start [] = []
trim_start (c ∷ cs) = if is_space c then trim_start cs else c ∷ cs

-- `s.trim()`
unfoldable pub trim : Text → Text
unfolding trim_start
trim s = reverse (trim_start (reverse (trim_start s)))

-- One character of `s.toUpperCase()`; a letter outside of ASCII stays as it is.
abbrev pub upper : ℕ → ℕ
upper c = if leb 97 c && leb c 122 then c - 32 else c

-- `s.toUpperCase()`
unfoldable pub to_upper : Text → Text
to_upper s = map upper s

-- Text without white space is left alone by `trim`.
abbrev pub NoSpace : Text → Type 0
NoSpace [] = Unit
NoSpace (c ∷ cs) = (is_space c ≡ false) × NoSpace cs

trim_start_id : (s : Text) → NoSpace s → trim_start s ≡ s
unfolding trim_start
trim_start_id [] h = refl
trim_start_id (c ∷ cs) h = rw h.0

NoSpace-append : (s t : Text) → NoSpace s → NoSpace t → NoSpace (s ++ t)
NoSpace-append [] t h k = k
NoSpace-append (c ∷ cs) t h k = (h.0, NoSpace-append cs t h.1 k)

NoSpace-reverse : (s : Text) → NoSpace s → NoSpace (reverse s)
NoSpace-reverse [] h = tt
NoSpace-reverse (c ∷ cs) h =
    rw (reverse-cons c cs) (NoSpace-append (reverse cs) (c ∷ []) (NoSpace-reverse cs h.1) (h.0, tt))

pub trim_id : (s : Text) → NoSpace s → trim s ≡ s
unfolding trim
trim_id s h =
    rw (trim_start_id s h, trim_start_id (reverse s) (NoSpace-reverse s h)) (reverse-reverse s)
