-- ===== src/Components/Positional.antt =====
-- pkg/whatsapp/message.go: the order of a template's parameters, whatever the order in which a range
-- visits their map.
use trt_whats.Common.{
  ℕ, zero, suc, ◌+◌, ◌^◌, ◌≤◌, ◌<◌, ◌≡◌, refl, sym, ap, ◌∙◌, true, false, List, [], ◌∷◌, map,
  nat_eq, Text, codes, length, Map, keys, lookup, All, ℤ, pos, negsuc, ltb_ℤ, arith, text_eq_on,
}
use mathlib.Core.List.{Permᴰ}
use trt_whats.Strconv.Decimal.{itoa, atoi-itoa}
use trt_whats.Components.Sorting.{sort, insert_sorted, sort-Permᴰ}
use trt_whats.Components.{
  text_ltb, is_number, every_number, number, number_ltb, sort_param_keys, text_or_empty, component,
  text_param, body_params_to_components,
}

text_ltb_trans : (s t u : Text) → text_ltb s t ≡ true → text_ltb t u ≡ true → text_ltb s u ≡ true
unfolding text_ltb
text_ltb_trans s [] u h k = absurd (ground arith)
text_ltb_trans s (b ∷ t) [] h k = absurd (ground arith)
text_ltb_trans [] (b ∷ t) (c ∷ u) h k = refl
text_ltb_trans (a ∷ s) (b ∷ t) (c ∷ u) h k = ground (arith, text_ltb_trans s t u)

text_ltb_asym : (s t : Text) → text_ltb s t ≡ true → text_ltb t s ≡ false
unfolding text_ltb
text_ltb_asym s [] h = absurd (ground arith)
text_ltb_asym [] (b ∷ t) h = refl
text_ltb_asym (a ∷ s) (b ∷ t) h = ground (arith, text_ltb_asym s t)

text_ltb_total : (s t : Text) → text_ltb s t ≡ false → text_ltb t s ≡ false → s ≡ t
unfolding text_ltb
text_ltb_total [] [] h k = refl
text_ltb_total [] (b ∷ t) h k = absurd (ground arith)
text_ltb_total (a ∷ s) [] h k = absurd (ground arith)
text_ltb_total (a ∷ s) (b ∷ t) h k = ground (arith, text_ltb_total s t)

ltb_ℤ_total : (a b : ℤ) → ltb_ℤ a b ≡ false → ltb_ℤ b a ≡ false → a ≡ b
ltb_ℤ_total (pos a) (pos b) h k = ground arith
ltb_ℤ_total (pos a) (negsuc b) h k = ground arith
ltb_ℤ_total (negsuc a) (pos b) h k = ground arith
ltb_ℤ_total (negsuc a) (negsuc b) h k = ground arith

-- A key that is the decimal of its number.
abbrev IsCanonical : Text → Type 0
IsCanonical key = key ≡ itoa (number key)

number_ltb_trans :
    (a b c : Text)
    → IsCanonical a
    → IsCanonical b
    → IsCanonical c
    → number_ltb a b ≡ true
    → number_ltb b c ≡ true
    → number_ltb a c ≡ true
unfolding number_ltb
number_ltb_trans a b c p q r h k = ground arith

number_ltb_asym :
    (a b : Text) → IsCanonical a → IsCanonical b → number_ltb a b ≡ true → number_ltb b a ≡ false
unfolding number_ltb
number_ltb_asym a b p q h = ground arith

number_ltb_total :
    (a b : Text)
    → IsCanonical a
    → IsCanonical b
    → number_ltb a b ≡ false
    → number_ltb b a ≡ false
    → a ≡ b
unfolding number_ltb
number_ltb_total a b p q h k = p ∙ ap itoa (ltb_ℤ_total (number a) (number b) h k) ∙ sym q

every_number-Permᴰ : {xs ys : List Text} → Permᴰ xs ys → every_number xs ≡ every_number ys
every_number-Permᴰ Permᴰ.nil = refl
every_number-Permᴰ (Permᴰ.cons e d) = rw (e, every_number-Permᴰ d) refl
every_number-Permᴰ (Permᴰ.swap {a = a} {b = b} e k) = rw (sym e, sym k) (ground arith)
every_number-Permᴰ (Permᴰ.trans d f) = every_number-Permᴰ d ∙ every_number-Permᴰ f

length-Permᴰ : {xs ys : List Text} → Permᴰ xs ys → length xs ≡ length ys
length-Permᴰ Permᴰ.nil = refl
length-Permᴰ (Permᴰ.cons e d) = ap suc (length-Permᴰ d)
length-Permᴰ (Permᴰ.swap e k) = refl
length-Permᴰ (Permᴰ.trans d f) = length-Permᴰ d ∙ length-Permᴰ f

length-keys : (m : Map Text Text) → length (keys m) ≡ length m
length-keys [] = refl
length-keys (p ∷ m) = ap suc (length-keys m)

-- The n keys from i on.
abbrev pub numbers : ℕ → ℕ → List Text
numbers i zero = []
numbers i (suc n) = itoa (pos i) ∷ numbers (suc i) n

number-itoa : (i : ℕ) → i < 2 ^ 63 → number (itoa (pos i)) ≡ pos i
unfolding number
number-itoa i h = rw (number, atoi-itoa (pos i) h (omega arith)) refl

is_number-itoa : (i : ℕ) → i < 2 ^ 63 → is_number (itoa (pos i)) ≡ true
unfolding is_number
is_number-itoa i h = rw (is_number, atoi-itoa (pos i) h (omega arith)) refl

numbers-IsCanonical : (i n : ℕ) → i + n ≤ 2 ^ 63 → All IsCanonical (numbers i n)
numbers-IsCanonical i zero h = tt
numbers-IsCanonical i (suc n) h =
    (sym (ap itoa (number-itoa i (omega arith))), numbers-IsCanonical (suc i) n (omega arith))

every_number-numbers : (i n : ℕ) → i + n ≤ 2 ^ 63 → every_number (numbers i n) ≡ true
every_number-numbers i zero h = refl
every_number-numbers i (suc n) h =
    rw (is_number-itoa i (omega arith)) (every_number-numbers (suc i) n (omega arith))

insert_sorted-numbers :
    (i n : ℕ)
    → suc i + n ≤ 2 ^ 63
    → insert_sorted number_ltb (itoa (pos i)) (numbers (suc i) n) ≡ itoa (pos i) ∷ numbers (suc i) n
unfolding number_ltb
insert_sorted-numbers i zero h = refl
insert_sorted-numbers i (suc n) h =
    rw (number-itoa i (omega arith), number-itoa (suc i) (omega arith)) (ground arith)

sort-numbers : (i n : ℕ) → i + n ≤ 2 ^ 63 → sort number_ltb (numbers i n) ≡ numbers i n
sort-numbers i zero h = refl
sort-numbers i (suc n) h =
    rw (sort-numbers (suc i) n (omega arith)) (insert_sorted-numbers i n (omega arith))

length-numbers : (i n : ℕ) → length (numbers i n) ≡ n
length-numbers i zero = refl
length-numbers i (suc n) = ap suc (length-numbers (suc i) n)

-- Where the keys of the map are 1, 2, … up to some number, in whatever order they are visited, the
-- one component of the body has their texts as its parameters in the order of the numbers (10 after
-- 9, not after 1), none of them with a name.
pub body_params_to_components-numbers :
    (n : ℕ) (m : Map Text Text)
    → 2 + n ≤ 2 ^ 63
    → Permᴰ (numbers 1 (suc n)) (keys m)
    → body_params_to_components m
      ≡ component
          (codes "body")
          (map (λ key. text_param false key (text_or_empty (lookup key m))) (numbers 1 (suc n)))
        ∷ []
unfolding body_params_to_components sort_param_keys
body_params_to_components-numbers n m h d =
    let size : length m ≡ suc n =
      sym (length-keys m) ∙ sym (length-Permᴰ d) ∙ length-numbers 1 (suc n) in
    let some_key : nat_eq (length m) 0 ≡ false = rw size (ground arith) in
    let numeric : every_number (keys m) ≡ true =
      sym (every_number-Permᴰ d) ∙ every_number-numbers 1 (suc n) (omega arith) in
    let sorted : sort number_ltb (keys m) ≡ numbers 1 (suc n) =
      sym (
        sort-Permᴰ number_ltb IsCanonical number_ltb_trans number_ltb_asym number_ltb_total d
          (numbers-IsCanonical 1 (suc n) (omega arith)))
      ∙ sort-numbers 1 (suc n) (omega arith) in
    rw (some_key, numeric, sorted) refl

All-Unit : (xs : List Text) → All {0, 0} (λ x. Unit) xs
All-Unit [] = tt
All-Unit (x ∷ xs) = (tt, All-Unit xs)

sort-texts : {xs ys : List Text} → Permᴰ xs ys → sort text_ltb xs ≡ sort text_ltb ys
sort-texts {xs} d =
    sort-Permᴰ text_ltb (λ x. Unit) (λ s t u _ _ _. text_ltb_trans s t u)
      (λ s t _ _. text_ltb_asym s t) (λ s t _ _. text_ltb_total s t) d (All-Unit xs)

-- The parameters of the keys depend on the map's entries alone.
map-text_param :
    (m m' : Map Text Text)
    → ((key : Text) → lookup key m ≡ lookup key m')
    → (ks : List Text)
    → map (λ key. text_param true key (text_or_empty (lookup key m))) ks
      ≡ map (λ key. text_param true key (text_or_empty (lookup key m'))) ks
map-text_param m m' same [] = refl
map-text_param m m' same (k ∷ ks) = rw (same k, map-text_param m m' same ks) refl

-- Two visits of one map in which some key is no number give the same components.
pub body_params_to_components-named :
    (m m' : Map Text Text)
    → Permᴰ (keys m) (keys m')
    → ((key : Text) → lookup key m ≡ lookup key m')
    → every_number (keys m) ≡ false
    → body_params_to_components m ≡ body_params_to_components m'
unfolding body_params_to_components sort_param_keys
body_params_to_components-named m m' d same h =
    let size : length m ≡ length m' = sym (length-keys m) ∙ length-Permᴰ d ∙ length-keys m' in
    let named : every_number (keys m') ≡ false = sym (every_number-Permᴰ d) ∙ h in
    rw (size, h, named, sort-texts d, map-text_param m m' same (sort text_ltb (keys m'))) refl
