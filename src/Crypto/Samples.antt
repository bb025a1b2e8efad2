-- ===== src/Crypto/Samples.antt =====
-- internal/crypto/crypto.go: a toy cipher that keeps the laws, and the theorems at it.
use trt_whats.Common.{
  ℕ, ◌≡◌, refl, ap, sym, true, List, [], ◌∷◌, map, Option, none, some, Text, codes, text_eq, length,
}
use trt_whats.Crypto.{Ciphers, encrypt, decrypt_fields, encrypt_fields}
use trt_whats.Crypto.RoundTrip.{IsCipher}
use trt_whats.Crypto.Fields.{texts, encrypt_fields_idem, decrypt_fields-encrypt_fields}

abbrev toy : Ciphers
toy = record {
  accepts_key = λ k. true;
  nonce_size = 2;
  seal = λ k n p. p;
  open_sealed = λ k n s. some s;
  encode = λ d. d;
  decode = λ s. some s;
}

toy-IsCipher : IsCipher toy
toy-IsCipher = record {
  accepts_32 = λ k e. refl;
  open-seal = λ k n p. refl;
  decode-encode = λ d. refl;
}

abbrev nonces : ℕ → Option Text
nonces i = some (1 ∷ 2 ∷ [])

nonces-size : (i : ℕ) (nonce : Text) → nonces i ≡ some nonce → length nonce ≡ 2
nonces-size i nonce e =
    let same : 1 ∷ 2 ∷ [] ≡ nonce = cc e in sym (ap (λ (x : Text). length x) same)

abbrev fields : List Text
fields = codes "token" ∷ [] ∷ codes "secret" ∷ []

encrypt_fields_idem_example :
    encrypt_fields toy
      (λ i. none)
      0
      (codes "k")
      (encrypt_fields toy nonces 0 (codes "k") (map some fields)).0
    ≡ ((encrypt_fields toy nonces 0 (codes "k") (map some fields)).0, true)
unfolding encrypt_fields encrypt text_eq
encrypt_fields_idem_example =
    encrypt_fields_idem toy (codes "k") nonces (λ i. none) 0 0 (map some fields) refl

decrypt_fields-encrypt_fields_example :
    decrypt_fields toy
      (codes "k")
      (texts (encrypt_fields toy nonces 0 (codes "k") (map some fields)).0)
    ≡ fields
unfolding encrypt_fields encrypt text_eq
decrypt_fields-encrypt_fields_example =
    decrypt_fields-encrypt_fields toy (codes "k") nonces 0 fields toy-IsCipher nonces-size
      (refl, (refl, (refl, tt))) refl
