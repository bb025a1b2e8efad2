-- ===== src/Phone/Masking.antt =====
-- internal/utils/phone.go: what a masked number shows.
use trt_whats.Common.{
  ℕ, zero, suc, ◌+◌, ◌-◌, ◌≤◌, ◌≡◌, refl, ap, sym, ◌∙◌, inl, inr, true, false, [], ◌∷◌, ◌++◌, leb,
  Text, length, length-append, length-replicate, drop, replicate, arith, Bool-cases,
}
use trt_whats.Phone.{mask_phone_number, count_digits, looks_like_phone_number, mask_if_phone_number}

length-drop : (n : ℕ) (s : Text) → length (drop n s) ≡ length s - n
length-drop zero s = omega arith
length-drop (suc n) [] = omega arith
length-drop (suc n) (c ∷ s) = omega (arith, length-drop n s)

masked :
    (phone : Text)
    → leb (length phone) 4 ≡ false
    → mask_phone_number phone ≡ replicate (length phone - 4) b'*' ++ drop (length phone - 4) phone
unfolding mask_phone_number
masked phone e = rw e refl

length-mask_phone_number : (phone : Text) → length (mask_phone_number phone) ≡ length phone
unfolding mask_phone_number
length-mask_phone_number phone = elim (Bool-cases (leb (length phone) 4)) [
  | inl e ↦ rw e refl
  | inr e ↦
      let n : ℕ = length phone - 4 in
      let star : ℕ = b'*' in
      rw e (
        omega (
          arith,
          length-append (replicate n star) (drop n phone),
          length-replicate n star,
          length-drop n phone,
          big e,
        ))
]
  where
    big : leb (length phone) 4 ≡ false → 5 ≤ length phone
    big e = ground (arith, e)

-- Two numbers of the same length, at least four, with the same last four bytes are masked alike,
-- and a masked number has the number's length.
pub mask_phone_number-drop :
    (a b : Text)
    → 4 ≤ length a
    → length a ≡ length b
    → drop (length a - 4) a ≡ drop (length b - 4) b
    → (mask_phone_number a ≡ mask_phone_number b) × (length (mask_phone_number a) ≡ length a)
mask_phone_number-drop a b long same tail = (
  elim (Bool-cases (leb (length a) 4)) [
    | inl e ↦
        let e' : leb (length b) 4 ≡ true = sym (ap (λ (n : ℕ). leb n 4) same) ∙ e in
        let none_a : length a - 4 ≡ 0 = ground (arith, e) in
        let none_b : length b - 4 ≡ 0 = ground (arith, e') in
        let equal : a ≡ b =
          sym (ap (λ (n : ℕ). drop n a) none_a) ∙ tail ∙ ap (λ (n : ℕ). drop n b) none_b in
        ap mask_phone_number equal
    | inr e ↦
        let e' : leb (length b) 4 ≡ false = sym (ap (λ (n : ℕ). leb n 4) same) ∙ e in
        rw (masked a e, masked b e', tail)
          (ap (λ (n : ℕ). replicate (n - 4) b'*' ++ drop (length b - 4) b) same)
  ],
  length-mask_phone_number a,
)

count_digits-append : (s t : Text) → count_digits (s ++ t) ≡ count_digits s + count_digits t
count_digits-append [] t = omega arith
count_digits-append (c ∷ s) t = ground (arith, count_digits-append s t)

count_digits-replicate : (n : ℕ) → count_digits (replicate n b'*') ≡ 0
count_digits-replicate zero = refl
count_digits-replicate (suc n) = count_digits-replicate n

count_digits-le : (s : Text) → count_digits s ≤ length s
count_digits-le [] = omega arith
count_digits-le (c ∷ s) = ground (arith, count_digits-le s)

masked_digits :
    (phone : Text) → leb (length phone) 4 ≡ false → count_digits (mask_phone_number phone) ≤ 4
masked_digits phone e =
    let n : ℕ = length phone - 4 in
    rw (masked phone e) (
      omega (
        arith,
        count_digits-append (replicate n b'*') (drop n phone),
        count_digits-replicate n,
        count_digits-le (drop n phone),
        length-drop n phone,
      ))

few_digits : (s : Text) → count_digits s ≤ 4 → looks_like_phone_number s ≡ false
unfolding looks_like_phone_number
few_digits s h = ground (arith, h)

long_enough : (s : Text) → looks_like_phone_number s ≡ true → leb (length s) 4 ≡ false
unfolding looks_like_phone_number
long_enough s h = ground (arith, h)

-- A text that has been masked is not masked again, and a text that is masked has at most four
-- digits left.
pub mask_if_phone_number_idem :
    (s : Text)
    → (mask_if_phone_number (mask_if_phone_number s) ≡ mask_if_phone_number s)
      × (looks_like_phone_number s ≡ true → count_digits (mask_if_phone_number s) ≤ 4)
unfolding mask_if_phone_number
mask_if_phone_number_idem s = elim (Bool-cases (looks_like_phone_number s)) [
  | inr e ↦ (
    let step : mask_if_phone_number s ≡ s = rw e refl in ap mask_if_phone_number step,
    λ t. absurd (ground (arith, e, t)),
  )
  | inl e ↦
      let long = long_enough s e in
      let step : mask_if_phone_number s ≡ mask_phone_number s = rw e refl in
      let few = masked_digits s long in
      let again : mask_if_phone_number (mask_phone_number s) ≡ mask_phone_number s =
        rw (few_digits (mask_phone_number s) few) refl in
      (ap mask_if_phone_number step ∙ again ∙ sym step, λ t. rw step few)
]
