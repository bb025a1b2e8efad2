-- ===== src/Crypto/RoundTrip.antt =====
-- internal/crypto/crypto.go, Encrypt and Decrypt together.
use trt_whats.Common.{
  ℕ, zero, suc, ◌-◌, ◌≤◌, ◌≡◌, refl, sym, ◌∙◌, subst, inl, inr, true, false, ◌||◌, [], ◌∷◌, ◌++◌,
  some, ltb, Text, length, length-append, length-replicate, take, drop, replicate, ◌==◌, text_eq,
  text_eq_on, arith, Bool-cases,
}
use trt_whats.Crypto.{Ciphers, prefix, derive_key, encrypt, open_data, decrypt}

take-append : (xs ys : Text) → take (length xs) (xs ++ ys) ≡ xs
take-append [] [] = refl
take-append [] (y ∷ ys) = refl
take-append (x ∷ xs) ys = rw (take-append xs ys)

drop-append : (xs ys : Text) → drop (length xs) (xs ++ ys) ≡ ys
drop-append [] [] = refl
drop-append [] (y ∷ ys) = refl
drop-append (x ∷ xs) ys = drop-append xs ys

length-take-le : (n : ℕ) (xs : Text) → length (take n xs) ≤ n
length-take-le zero xs = ground arith
length-take-le (suc n) [] = ground arith
length-take-le (suc n) (x ∷ xs) = ground (arith, length-take-le n xs)

not_shorter : (xs ys : Text) → ltb (length (xs ++ ys)) (length xs) ≡ false
not_shorter xs ys = ground (arith, length-append xs ys)

-- AES-256 gets the 32 bytes that it wants, whatever the key's length.
pub length-derive_key : (key : Text) → length (derive_key key) ≡ 32
unfolding derive_key
length-derive_key key =
    let pad : ℕ = 32 - length (take 32 key) in
    let nought : ℕ = 0 in
    omega (
      arith,
      length-append (take 32 key) (replicate pad nought),
      length-replicate pad nought,
      length-take-le 32 key,
    )

long : (n : ℕ) → ltb (suc (suc (suc (suc n)))) 4 ≡ false
long n = ground arith

-- What the ciphers and encodings promise.
pub record IsCipher (c : Ciphers) : Type 0 where
  pub accepts_32 : (k : Text) → length k ≡ 32 → c.accepts_key k ≡ true
  pub open-seal : (k n p : Text) → c.open_sealed k n (c.seal k n p) ≡ some p
  pub decode-encode : (d : Text) → c.decode (c.encode d) ≡ some d

module _ (c : Ciphers) (good : IsCipher c) (key : Text) where
  open_data-seal :
      (nonce plaintext : Text)
      → length nonce ≡ c.nonce_size
      → open_data c (derive_key key) (nonce ++ c.seal (derive_key key) nonce plaintext)
        ≡ some plaintext
  open_data-seal nonce p e =
      rw (good.accepts_32 (derive_key key) (length-derive_key key), ← e)
        (rw
          (
            not_shorter nonce (c.seal (derive_key key) nonce p),
            take-append nonce (c.seal (derive_key key) nonce p),
            drop-append nonce (c.seal (derive_key key) nonce p),
          )
          (good.open-seal (derive_key key) nonce p))

  decrypt-prefixed :
      (coded : Text) {body : Text}
      → (key == []) ≡ false
      → c.decode coded ≡ some body
      → decrypt c (prefix ++ coded) key ≡ open_data c (derive_key key) body
  unfolding decrypt text_eq
  decrypt-prefixed coded k e = rw (k, long (length coded), e) refl

  -- With a nonce of the cipher's size, a text that Encrypt returns without an error is decrypted to the text that was encrypted, also
  -- where there is no key, where the text is empty, and where it looks encrypted already.
  pub decrypt-encrypt :
      (nonce plaintext : Text) {e : Text}
      → length nonce ≡ c.nonce_size
      → encrypt c (some nonce) plaintext key ≡ some e
      → decrypt c e key ≡ some plaintext
  unfolding encrypt decrypt
  decrypt-encrypt nonce p {e} size h = elim (Bool-cases ((key == []) || (p == []))) [
    | inl trivial ↦
        let step : encrypt c (some nonce) p key ≡ some p = rw trivial refl in
        let back : decrypt c p key ≡ some p = rw trivial refl in
        let same : p ≡ e = cc (sym step ∙ h) in subst (λ x. decrypt c x key ≡ some p) same back
    | inr real ↦
        let sealed : Text = c.seal (derive_key key) nonce p in
        let out : Text = prefix ++ c.encode (nonce ++ sealed) in
        let step : encrypt c (some nonce) p key ≡ some out =
          rw (real, good.accepts_32 (derive_key key) (length-derive_key key)) refl in
        let same : out ≡ e = cc (sym step ∙ h) in
        subst (λ x. decrypt c x key ≡ some p) same
          (decrypt-prefixed (c.encode (nonce ++ sealed)) (ground (arith, real))
              (good.decode-encode (nonce ++ sealed))
            ∙ open_data-seal nonce p size)
  ]
