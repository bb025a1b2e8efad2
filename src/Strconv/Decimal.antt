-- ===== src/Strconv/Decimal.antt =====
-- strconv.Itoa and strconv.Atoi (of the 64-bit int), with their round trip.
use trt_whats.Common.{
  ℕ, zero, suc, ◌+◌, ◌-◌, ◌*◌, ◌/◌, ◌%◌, ◌^◌, ◌≤◌, ◌<◌, ◌≡◌, refl, ◌∙◌, inl, inr, Bool, true, false,
  ◌&&◌, [], ◌∷◌, Option, none, some, if◌then◌else◌, ltb, leb, nat_eq, Text, ℤ, pos, negsuc,
  pos_part, neg_part, arith, Bool-cases,
}

abbrev pub is_digit : ℕ → Bool
is_digit c = leb b'0' c && leb c b'9'

-- The digits of n in front of `acc`; the fuel is more than n.
digits : ℕ → ℕ → Text → Text
digits zero n acc = acc
digits (suc f) n acc =
    let rest = digits f (n / 10) ((48 + n % 10) ∷ acc) in if ltb n 10 then (48 + n) ∷ acc else rest

unfoldable pub decimal : ℕ → Text
unfolding digits
decimal n = digits (suc n) n []

-- strconv.Itoa
unfoldable pub itoa : ℤ → Text
unfolding decimal
itoa (pos n) = decimal n
itoa (negsuc n) = b'-' ∷ decimal (suc n)

parse_digits : ℕ → Text → Option ℕ
parse_digits acc [] = some acc
parse_digits acc (c ∷ s) = if is_digit c then parse_digits (acc * 10 + (c - 48)) s else none

-- At least one digit.
parse_nat : Text → Option ℕ
unfolding parse_digits
parse_nat [] = none
parse_nat (c ∷ s) = parse_digits 0 (c ∷ s)

-- An int64, from its sign and magnitude; a magnitude out of range is an error.
in_range : Bool → Option ℕ → Option ℤ
in_range negative none = none
in_range false (some n) = if ltb n (2 ^ 63) then some (pos n) else none
in_range true (some zero) = some (pos 0)
in_range true (some (suc n)) = if ltb n (2 ^ 63) then some (negsuc n) else none

-- strconv.Atoi; `none` is its error.
unfoldable pub atoi : Text → Option ℤ
unfolding in_range parse_nat
atoi [] = none
atoi (c ∷ s) =
    if nat_eq c b'-'
    then in_range true (parse_nat s)
    else if nat_eq c b'+'
    then in_range false (parse_nat s)
    else in_range false (parse_nat (c ∷ s))

digit_step : (n : ℕ) (acc : Text) → parse_digits (n / 10) ((48 + n % 10) ∷ acc) ≡ parse_digits n acc
unfolding parse_digits
digit_step n acc =
    let digit : is_digit (48 + n % 10) ≡ true = ground arith in
    let value : n / 10 * 10 + (48 + n % 10 - 48) ≡ n = omega arith in rw (digit, value) refl

last_digit : (n : ℕ) (acc : Text) → n < 10 → parse_digits 0 ((48 + n) ∷ acc) ≡ parse_digits n acc
unfolding parse_digits
last_digit n acc h =
    let digit : is_digit (48 + n) ≡ true = ground arith in
    let value : 0 * 10 + (48 + n - 48) ≡ n = omega arith in rw (digit, value) refl

parse_digits-digits :
    (f n : ℕ) (acc : Text) → n < f → parse_digits 0 (digits f n acc) ≡ parse_digits n acc
unfolding digits
parse_digits-digits zero n acc h = elim h [ ]
parse_digits-digits (suc f) n acc h = elim (Bool-cases (ltb n 10)) [
  | inl last ↦ rw last (last_digit n acc (ground arith))
  | inr more ↦
      rw more
        (parse_digits-digits f (n / 10) ((48 + n % 10) ∷ acc) (ground arith) ∙ digit_step n acc)
]

-- A text that begins with a digit.
abbrev StartsWithDigit : Text → Type 0
StartsWithDigit t = (c : ℕ) × (s : Text) × (t ≡ c ∷ s) × (48 ≤ c) × (c ≤ 57)

digits-StartsWithDigit :
    (f n c : ℕ) (s : Text) → 48 ≤ c → c ≤ 57 → StartsWithDigit (digits f n (c ∷ s))
unfolding digits
digits-StartsWithDigit zero n c s h k = (c, s, refl, h, k)
digits-StartsWithDigit (suc f) n c s h k = elim (Bool-cases (ltb n 10)) [
  | inl last ↦ rw last ((48 + n, c ∷ s, refl, omega arith, ground arith))
  | inr more ↦
      rw more (digits-StartsWithDigit f (n / 10) (48 + n % 10) (c ∷ s) (omega arith) (omega arith))
]

decimal-StartsWithDigit : (n : ℕ) → StartsWithDigit (decimal n)
unfolding decimal
decimal-StartsWithDigit n = elim (Bool-cases (ltb n 10)) [
  | inl last ↦ rw last ((48 + n, [], refl, omega arith, ground arith))
  | inr more ↦
      rw more (digits-StartsWithDigit n (n / 10) (48 + n % 10) [] (omega arith) (omega arith))
]

parse_nat_digits : (t : Text) → StartsWithDigit t → parse_nat t ≡ parse_digits 0 t
unfolding parse_nat
parse_nat_digits t (c, s, e, _, _) = rw e refl

parse_nat-decimal : (n : ℕ) → parse_nat (decimal n) ≡ some n
unfolding decimal parse_digits
parse_nat-decimal n =
    parse_nat_digits (decimal n) (decimal-StartsWithDigit n)
    ∙ parse_digits-digits (suc n) n [] (omega arith)

atoi_digits : (t : Text) → StartsWithDigit t → atoi t ≡ in_range false (parse_nat t)
unfolding atoi
atoi_digits t (c, s, e, h, k) = rw e (ground arith)

-- Reading a printed integer gives it back, for every 64-bit integer.
pub atoi-itoa : (z : ℤ) → pos_part z < 2 ^ 63 → neg_part z ≤ 2 ^ 63 → atoi (itoa z) ≡ some z
unfolding itoa
atoi-itoa (pos n) h k =
    atoi_digits (decimal n) (decimal-StartsWithDigit n)
    ∙ rw (parse_nat-decimal n) (unfold in_range in ground arith)
atoi-itoa (negsuc n) h k = unfold atoi in rw (parse_nat-decimal (suc n)) (ground arith)
