-- ===== src/Announcements/Preview.antt =====
-- The text on a lock screen: `previewOf` of backend/src/modules/alerts/announcements.service.ts.
use entryva.Base.{
  ℕ, zero, suc, ◌≤◌, false, arith, leb, Bool-cases, inl, inr, [], ◌∷◌, length, length-snoc, take,
  Text, trim,
}
use entryva.Announcements.{flatten, trim_end, preview_of}

length-trim_end : (t : Text) → length (trim_end t) ≤ length t
unfolding trim_end
length-trim_end [] = omega arith
length-trim_end (c ∷ cs) = ground (arith, length-trim_end cs)

length-take : (n : ℕ) (t : Text) → length (take n t) ≤ n
length-take zero t = omega arith
length-take (suc n) [] = omega arith
length-take (suc n) (c ∷ cs) = ground (arith, length-take n cs)

-- A preview has at most 140 characters, however long the post.
pub preview_of-short : (body : Text) → length (preview_of body) ≤ 140
unfolding preview_of
preview_of-short body = elim (Bool-cases (leb (length (trim (flatten false body))) 140)) [
  | inl e ↦ rw e (ground arith)
  | inr e ↦ rw e (
      let flat = trim (flatten false body) in
      ground (
        arith,
        length-snoc (trim_end (take 139 flat)) 8230,
        length-trim_end (take 139 flat),
        length-take 139 flat,
      ))
]
