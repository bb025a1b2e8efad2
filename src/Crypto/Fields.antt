-- ===== src/Crypto/Fields.antt =====
-- internal/crypto/crypto.go, EncryptFields and DecryptFields: repeated, and one after the other.
use trt_whats.Common.{
  ℕ, suc, ◌≡◌, refl, ap, sym, ◌∙◌, subst, inl, inr, ◌⊎◌, true, false, ◌||◌, List, [], ◌∷◌, ◌++◌,
  map, Option, none, some, leb, Text, length, length-replicate, replicate, All, ◌==◌, text_eq,
  text_eq_on, arith, Bool-cases, Option-cases,
}
use trt_whats.Crypto.{
  Ciphers, prefix, derive_key, is_encrypted, encrypt, decrypt, decrypt_fields, encrypt_fields,
}
use trt_whats.Crypto.RoundTrip.{IsCipher, decrypt-encrypt}

four_le : (n : ℕ) → leb 4 (suc (suc (suc (suc n)))) ≡ true
four_le n = ground arith

prefix-is_encrypted : (body : Text) → is_encrypted (prefix ++ body) ≡ true
unfolding text_eq
prefix-is_encrypted body = rw (four_le (length body)) refl

abbrev pub texts : List (Option Text) → List Text
texts [] = []
texts (none ∷ fs) = texts fs
texts (some f ∷ fs) = f ∷ texts fs

module _ (c : Ciphers) (key : Text) where
  -- An encrypted text has the prefix, or it is a text that is not encrypted at all.
  encrypt-cases :
      (r : Option Text) (f : Text) {e : Text}
      → encrypt c r f key ≡ some e
      → (is_encrypted e ≡ true) ⊎ ((r' : Option Text) → encrypt c r' e key ≡ some e)
  unfolding encrypt
  encrypt-cases r f {e} h = elim (Bool-cases ((key == []) || (f == []))) [
    | inl trivial ↦
        let step : encrypt c r f key ≡ some f = rw trivial refl in
        let same : f ≡ e = cc (sym step ∙ h) in
        let back =
          λ (r' : Option Text). subst (λ x. encrypt c r' x key ≡ some x) same (rw trivial refl) in
        inr back
    | inr real ↦ inl (sealed r f real h)
  ]
    where
      sealed :
          (r : Option Text) (f : Text) {e : Text}
          → ((key == []) || (f == [])) ≡ false
          → encrypt c r f key ≡ some e
          → is_encrypted e ≡ true
      sealed r f {e} real h = elim (Bool-cases (c.accepts_key (derive_key key))) [
        | inr refused ↦
            let step : encrypt c r f key ≡ none = rw (real, refused) refl in
            let clash : none ≡ some e = sym step ∙ h in cc clash
        | inl known ↦ elim (Option-cases r) [
          | inl dry ↦
              let step : encrypt c r f key ≡ none = rw (real, known) (rw (dry, encrypt) refl) in
              let clash : none ≡ some e = sym step ∙ h in cc clash
          | inr (nonce, read) ↦
              let out : Text = prefix ++ c.encode (nonce ++ c.seal (derive_key key) nonce f) in
              let step : encrypt c r f key ≡ some out =
                rw (real, known) (rw (read, encrypt) refl) in
              let same : out ≡ e = cc (sym step ∙ h) in
              subst (λ x. is_encrypted x ≡ true) same
                (prefix-is_encrypted (c.encode (nonce ++ c.seal (derive_key key) nonce f)))
        ]
      ]

  second :
      (random : ℕ → Option Text) (m : ℕ) (t : Text) (fs : List (Option Text))
      → encrypt_fields c random (suc m) key fs ≡ (fs, true)
      → (is_encrypted t ≡ true) ⊎ ((r : Option Text) → encrypt c r t key ≡ some t)
      → encrypt_fields c random m key (some t ∷ fs) ≡ (some t ∷ fs, true)
  unfolding encrypt_fields
  second random m t fs h (inl on) = rw (on, h) refl
  second random m t fs h (inr same) = elim (Bool-cases (is_encrypted t)) [
    | inl on ↦ rw (on, h) refl
    | inr off ↦ rw off (rw (same (random m), encrypt_fields) (rw h refl))
  ]

  -- Encrypting fields that were encrypted without an error changes nothing and does not fail,
  -- whatever the random nonces are.
  pub encrypt_fields_idem :
      (random random' : ℕ → Option Text) (n m : ℕ) (fs : List (Option Text))
      → (encrypt_fields c random n key fs).1 ≡ true
      → encrypt_fields c random' m key (encrypt_fields c random n key fs).0
        ≡ ((encrypt_fields c random n key fs).0, true)
  unfolding encrypt_fields
  encrypt_fields_idem random random' n m [] h = refl
  encrypt_fields_idem random random' n m (none ∷ fs) h =
      rw (encrypt_fields_idem random random' (suc n) (suc m) fs h) refl
  encrypt_fields_idem random random' n m (some f ∷ fs) h =
      let rest = encrypt_fields c random (suc n) key fs in
      let again = encrypt_fields_idem random random' (suc n) (suc m) fs in
      elim (Bool-cases (is_encrypted f)) [
        | inl on ↦
            let step : encrypt_fields c random n key (some f ∷ fs) ≡ (some f ∷ rest.0, rest.1) =
              rw on refl in
            let fine : rest.1 ≡ true = sym (ap (λ r. r.1) step) ∙ h in
            rw step (rw (on, again fine) refl)
        | inr off ↦ elim (Option-cases (encrypt c (random n) f key)) [
          | inl e ↦
              let step : (encrypt_fields c random n key (some f ∷ fs)).1 ≡ false =
                rw off (rw (e, encrypt_fields) refl) in
              let clash : false ≡ true = sym step ∙ h in cc clash
          | inr (t, e) ↦
              let step : encrypt_fields c random n key (some f ∷ fs) ≡ (some t ∷ rest.0, rest.1) =
                rw off (rw (e, encrypt_fields) refl) in
              let fine : rest.1 ≡ true = sym (ap (λ r. r.1) step) ∙ h in
              rw step (second random' m t rest.0 (again fine) (encrypt-cases (random n) f e))
        ]
      ]

  unused :
      (nonce f : Text) {t : Text}
      → encrypt c none f key ≡ some t
      → encrypt c (some nonce) f key ≡ some t
  unfolding encrypt
  unused nonce f {t} e = elim (Bool-cases ((key == []) || (f == []))) [
    | inl trivial ↦
        let step : encrypt c none f key ≡ some f = rw trivial refl in
        let same : some f ≡ some t = sym step ∙ e in rw trivial same
    | inr real ↦ elim (Bool-cases (c.accepts_key (derive_key key))) [
      | inl known ↦
          let step : encrypt c none f key ≡ none = rw (real, known) refl in
          let clash : none ≡ some t = sym step ∙ e in cc clash
      | inr refused ↦
          let step : encrypt c none f key ≡ none = rw (real, refused) refl in
          let clash : none ≡ some t = sym step ∙ e in cc clash
    ]
  ]

  read :
      {random : ℕ → Option Text} (n : ℕ) (f : Text) {t : Text}
      → IsCipher c
      → ((i : ℕ) (nonce : Text) → random i ≡ some nonce → length nonce ≡ c.nonce_size)
      → encrypt c (random n) f key ≡ some t
      → decrypt c t key ≡ some f
  read {random} n f {t} good size e = elim (Option-cases (random n)) [
    | inr (nonce, q) ↦
        decrypt-encrypt c good key nonce f (size n nonce q)
          (ap (λ r. encrypt c r f key) (sym q) ∙ e)
    | inl q ↦
        let zeros : Text = replicate c.nonce_size 0 in
        decrypt-encrypt c good key zeros f (length-replicate c.nonce_size 0)
          (unused zeros f (ap (λ r. encrypt c r f key) (sym q) ∙ e))
  ]

  -- What is decrypted after it was encrypted without an error is what it was before, where nothing
  -- was encrypted before and the nonces have the size that the cipher wants.
  pub decrypt_fields-encrypt_fields :
      (random : ℕ → Option Text) (n : ℕ) (fs : List Text)
      → IsCipher c
      → ((i : ℕ) (nonce : Text) → random i ≡ some nonce → length nonce ≡ c.nonce_size)
      → All (λ f. is_encrypted f ≡ false) fs
      → (encrypt_fields c random n key (map some fs)).1 ≡ true
      → decrypt_fields c key (texts (encrypt_fields c random n key (map some fs)).0) ≡ fs
  unfolding encrypt_fields decrypt_fields
  decrypt_fields-encrypt_fields random n [] good size plain h = refl
  decrypt_fields-encrypt_fields random n (f ∷ fs) good size plain h =
      let rest = encrypt_fields c random (suc n) key (map some fs) in
      elim (Option-cases (encrypt c (random n) f key)) [
        | inl e ↦
            let step : (encrypt_fields c random n key (some f ∷ map some fs)).1 ≡ false =
              rw plain.0 (rw (e, encrypt_fields) refl) in
            let clash : false ≡ true = sym step ∙ h in cc clash
        | inr (t, e) ↦
            let step : encrypt_fields c random n key (some f ∷ map some fs)
                ≡ (some t ∷ rest.0, rest.1) =
              rw plain.0 (rw (e, encrypt_fields) refl) in
            let fine : rest.1 ≡ true = sym (ap (λ r. r.1) step) ∙ h in
            rw step (
              rw (read n f good size e, decrypt_fields)
                (ap (◌∷◌ f)
                  (decrypt_fields-encrypt_fields random (suc n) fs good size plain.1 fine)))
      ]
