-- ===== src/Phone.antt =====
-- internal/utils/phone.go. A string is the list of its bytes. The quotient of the floats is above
-- 0.7 exactly if ten times the count of digits is above seven times the length: a quotient of 7/10
-- is rounded to the constant itself, and any other is off by more than its rounding.
mod Samples
pub mod Masking
use trt_whats.Common.{
  ℕ, suc, ◌+◌, ◌-◌, ◌*◌, Bool, true, false, not, ◌&&◌, List, [], ◌∷◌, ◌++◌, if◌then◌else◌, ltb, leb,
  Text, length, take, drop, replicate,
}
use trt_whats.Strconv.Decimal.{is_digit}

unfoldable pub mask_phone_number : Text → Text
mask_phone_number phone =
    if leb (length phone) 4
    then phone
    else replicate (length phone - 4) b'*' ++ drop (length phone - 4) phone

abbrev pub count_digits : Text → ℕ
count_digits [] = 0
count_digits (c ∷ s) = let rest = count_digits s in if is_digit c then suc rest else rest

unfoldable pub looks_like_phone_number : Text → Bool
looks_like_phone_number s =
    if ltb (length s) 7
    then false
    else let digits = count_digits s in leb 7 digits && ltb (7 * length s) (10 * digits)

unfoldable pub mask_if_phone_number : Text → Text
unfolding mask_phone_number looks_like_phone_number
mask_if_phone_number s = if looks_like_phone_number s then mask_phone_number s else s
