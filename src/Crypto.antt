-- ===== src/Crypto.antt =====
-- internal/crypto/crypto.go. A string is the list of its bytes. The ciphers and encodings of Go's
-- library, and the random nonces, are parameters.
pub mod RoundTrip
pub mod Fields
mod Samples
use trt_whats.Common.{
  ℕ, zero, suc, ◌-◌, ◌+◌, ◌≡◌, refl, Bool, true, false, not, ◌&&◌, ◌||◌, List, [], ◌∷◌, ◌++◌,
  Option, none, some, if◌then◌else◌, ltb, leb, Text, codes, length, take, drop, replicate, ◌==◌,
  text_eq_on,
}

pub record Ciphers : Type 0 where
  pub accepts_key : Text → Bool  -- aes.NewCipher and cipher.NewGCM succeed
  pub nonce_size : ℕ
  pub seal : Text → Text → Text → Text  -- of a key, a nonce and a plain text
  pub open_sealed : Text → Text → Text → Option Text
  pub encode : Text → Text  -- base64.StdEncoding
  pub decode : Text → Option Text

abbrev pub prefix : Text
prefix = codes "enc:"

-- deriveKey: the rest of the 32 bytes is 0.
unfoldable pub derive_key : Text → Text
derive_key key = take 32 key ++ replicate (32 - length (take 32 key)) 0

abbrev pub is_encrypted : Text → Bool
is_encrypted v = leb 4 (length v) && (take 4 v == prefix)

-- Encrypt: `random` is the nonce read, unless that fails.
unfoldable pub encrypt : Ciphers → Option Text → Text → Text → Option Text
encrypt c random plaintext key =
    if (key == []) || (plaintext == [])
    then some plaintext
    else if not (c.accepts_key (derive_key key))
    then none
    else elim random [
      | none ↦ none
      | some nonce ↦ some (prefix ++ c.encode (nonce ++ c.seal (derive_key key) nonce plaintext))
    ]

abbrev pub open_data : Ciphers → Text → Text → Option Text
open_data c key body =
    if not (c.accepts_key key)
    then none
    else if ltb (length body) c.nonce_size
    then none
    else c.open_sealed key (take c.nonce_size body) (drop c.nonce_size body)

unfoldable pub decrypt : Ciphers → Text → Text → Option Text
decrypt c ciphertext key =
    if (key == []) || (ciphertext == [])
    then some ciphertext
    else if ltb (length ciphertext) 4 || not (take 4 ciphertext == prefix)
    then some ciphertext
    else elim (c.decode (drop 4 ciphertext)) [
      | none ↦ none
      | some body ↦ open_data c (derive_key key) body
    ]

unfoldable pub decrypt_fields : Ciphers → Text → List Text → List Text
unfolding decrypt
decrypt_fields c key [] = []
decrypt_fields c key (f ∷ fs) =
    let rest = decrypt_fields c key fs in
    elim (decrypt c f key) [ none ↦ f ∷ rest | some dec ↦ dec ∷ rest ]

-- EncryptFields: the fields afterwards, and whether there was no error. A nil pointer is `none`;
-- `random n` is the nonce of the n-th field from `n` on.
unfoldable pub encrypt_fields :
    Ciphers → (ℕ → Option Text) → ℕ → Text → List (Option Text) → List (Option Text) × Bool
unfolding encrypt
encrypt_fields c random n key [] = ([], true)
encrypt_fields c random n key (none ∷ fs) =
    let rest = encrypt_fields c random (suc n) key fs in (none ∷ rest.0, rest.1)
encrypt_fields c random n key (some f ∷ fs) =
    let rest = encrypt_fields c random (suc n) key fs in
    if is_encrypted f then (some f ∷ rest.0, rest.1) else elim (encrypt c (random n) f key) [
      | none ↦ (some f ∷ fs, false)
      | some e ↦ (some e ∷ rest.0, rest.1)
    ]
