-- ===== src/Strconv/Trim.antt =====
-- strings.TrimSpace.
use trt_whats.Common.{
  ℕ, ◌≡◌, refl, ap, ◌∙◌, inl, inr, Bool, false, ◌&&◌, ◌||◌, [], ◌∷◌, if◌then◌else◌, leb, nat_eq,
  Text, arith, Bool-cases, contains, nat_eq_on,
}

-- unicode.IsSpace: the Latin-1 spaces and Unicode's White_Space.
is_space : ℕ → Bool
is_space c =
    (leb 9 c && leb c 13)
    || nat_eq c 32
    || nat_eq c 0x85
    || nat_eq c 0xa0
    || nat_eq c 0x1680
    || (leb 0x2000 c && leb c 0x200a)
    || nat_eq c 0x2028
    || nat_eq c 0x2029
    || nat_eq c 0x202f
    || nat_eq c 0x205f
    || nat_eq c 0x3000

unfoldable pub trim_left : Text → Text
unfolding is_space
trim_left [] = []
trim_left (c ∷ s) = if is_space c then trim_left s else c ∷ s

-- A character in front of a text whose right end is trimmed already.
abbrev keep : ℕ → Text → Text
keep c [] = if is_space c then [] else c ∷ []
keep c (d ∷ s) = c ∷ d ∷ s

unfoldable pub trim_right : Text → Text
unfolding is_space
trim_right [] = []
trim_right (c ∷ s) = keep c (trim_right s)

-- strings.TrimSpace
unfoldable pub trim_space : Text → Text
unfolding trim_left trim_right
trim_space s = trim_right (trim_left s)

trim_right-keep : (c : ℕ) (s : Text) → trim_right s ≡ s → trim_right (keep c s) ≡ keep c s
unfolding trim_right
trim_right-keep c [] h = ground arith
trim_right-keep c (d ∷ s) h = rw h refl

trim_right_idem : (s : Text) → trim_right (trim_right s) ≡ trim_right s
unfolding trim_right
trim_right_idem [] = refl
trim_right_idem (c ∷ s) = trim_right-keep c (trim_right s) (trim_right_idem s)

keep_visible : (c : ℕ) (s : Text) → is_space c ≡ false → keep c s ≡ c ∷ s
keep_visible c [] h = rw h
keep_visible c (d ∷ s) h = refl

-- No space on the left.
abbrev StartsVisible : Text → Type 0
StartsVisible [] = Unit
StartsVisible (c ∷ s) = is_space c ≡ false

trim_left-StartsVisible : (s : Text) → StartsVisible (trim_left s)
unfolding trim_left
trim_left-StartsVisible [] = tt
trim_left-StartsVisible (c ∷ s) = elim (Bool-cases (is_space c)) [
  | inl h ↦ rw h (trim_left-StartsVisible s)
  | inr h ↦ rw h h
]

trim_left-trim_right : (s : Text) → StartsVisible s → trim_left (trim_right s) ≡ trim_right s
unfolding trim_left trim_right
trim_left-trim_right [] h = refl
trim_left-trim_right (c ∷ s) h = rw (keep_visible c (trim_right s) h) (rw h refl)

-- A text that is trimmed stays as it is when it is trimmed again.
pub trim_space_idem : (s : Text) → trim_space (trim_space s) ≡ trim_space s
unfolding trim_space
trim_space_idem s =
    ap trim_right (trim_left-trim_right (trim_left s) (trim_left-StartsVisible s))
    ∙ trim_right_idem (trim_left s)

contains-trim_left : (c : ℕ) (s : Text) → contains c s ≡ false → contains c (trim_left s) ≡ false
unfolding trim_left
contains-trim_left c [] h = refl
contains-trim_left c (d ∷ s) h = ground (arith, contains-trim_left c s)

contains-keep : (c d : ℕ) (s : Text) → contains c (d ∷ s) ≡ false → contains c (keep d s) ≡ false
contains-keep c d [] h = ground arith
contains-keep c d (e ∷ s) h = h

contains-trim_right : (c : ℕ) (s : Text) → contains c s ≡ false → contains c (trim_right s) ≡ false
unfolding trim_right
contains-trim_right c [] h = refl
contains-trim_right c (d ∷ s) h =
    contains-keep c d (trim_right s) (ground (arith, contains-trim_right c s))

-- Trimming brings in no character.
pub contains-trim_space :
    (c : ℕ) (s : Text) → contains c s ≡ false → contains c (trim_space s) ≡ false
unfolding trim_space
contains-trim_space c s h = contains-trim_right c (trim_left s) (contains-trim_left c s h)
