-- ===== src/Config/Crypto/RoundTrip.antt =====
-- internal/config/crypto.go: a text that is encrypted can be decrypted.
use alertmesh_new.Prelude.{
  ℕ, String, Option, none, some, [], ◌∷◌, ◌++◌, ltb, length, if◌then◌else◌, ◌≡◌, refl, sym, ap,
  subst, arith, le→not_ltb, if-no, length-append,
}
use alertmesh_new.Config.Crypto.{
  Bytes, Primitives, CryptoError, Crypto, crypto_error, crypto_value, bind_crypto, require,
  take_bytes, drop_bytes, load_key, make_gcm, encrypt, open_data, decrypt, too_short,
  bad_ciphertext, no_nonce, not_authentic,
}

take_bytes-append : (a b : Bytes) → take_bytes (length a) (a ++ b) ≡ a
take_bytes-append [] b = refl
take_bytes-append (x ∷ a) b = ap (λ l. x ∷ l) (take_bytes-append a b)

drop_bytes-append : (a b : Bytes) → drop_bytes (length a) (a ++ b) ≡ b
drop_bytes-append [] b = refl
drop_bytes-append (x ∷ a) b = drop_bytes-append a b

open_data-seal :
    (c : Primitives) (gcm nonce : Bytes) (plaintext : String)
    → length nonce ≡ c.nonce_size
    → ((key n p : Bytes) → c.open_sealed key n (c.seal key n p) ≡ some p)
    → c.string_of (c.bytes_of plaintext) ≡ plaintext
    → open_data c gcm (nonce ++ c.seal gcm nonce (c.bytes_of plaintext)) ≡ crypto_value plaintext
unfolding open_data bind_crypto
open_data-seal c gcm nonce plaintext n opens text =
    subst
      (λ m.
        (if ltb (length (nonce ++ body)) m
          then crypto_error too_short
          else bind_crypto
              (require not_authentic
                (c.open_sealed gcm (take_bytes m (nonce ++ body)) (drop_bytes m (nonce ++ body))))
              (λ p. crypto_value (c.string_of p)))
        ≡ crypto_value plaintext)
      n
      (if-no (λ x. x ≡ crypto_value plaintext) (ltb (length (nonce ++ body)) (length nonce))
        (crypto_error too_short)
        (bind_crypto
          (require not_authentic (
            c.open_sealed gcm (take_bytes (length nonce) (nonce ++ body))
              (drop_bytes (length nonce) (nonce ++ body))))
          (λ p. crypto_value (c.string_of p)))
        (le→not_ltb (length (nonce ++ body)) (length nonce)
          (omega (arith, length-append nonce body)))
        (rw
          (
            take_bytes-append nonce body,
            drop_bytes-append nonce body,
            opens gcm nonce (c.bytes_of plaintext),
          )
          (ap crypto_value text)))
  where
    body : Bytes
    body = c.seal gcm nonce (c.bytes_of plaintext)

-- The text of a result, or "".
abbrev text_in : Crypto String → String
text_in (crypto_error e) = ""
text_in (crypto_value s) = s

abbrev IsValue : Crypto String → Type 0
IsValue (crypto_error e) = ⊥
IsValue (crypto_value s) = Unit

no_error : {A : Type 0} (e : CryptoError) (s : String) → crypto_error e ≡ crypto_value s → A
no_error e s h = absurd (subst IsValue (sym h) tt)

-- If base64 and the cipher open what they have closed, then whatever `Encrypt` answers under a key,
-- `Decrypt` under the same key gives the text back.
pub decrypt-encrypt :
    (c : Primitives) (plaintext key ciphertext : String)
    → ((n : ℕ) (b : Bytes) → c.read_random n ≡ some b → length b ≡ n)
    → ((b : Bytes) → c.decode_string (c.encode_to_string b) ≡ some b)
    → ((k n p : Bytes) → c.open_sealed k n (c.seal k n p) ≡ some p)
    → c.string_of (c.bytes_of plaintext) ≡ plaintext
    → encrypt c plaintext key ≡ crypto_value ciphertext
    → decrypt c ciphertext key ≡ crypto_value plaintext
unfolding encrypt decrypt bind_crypto
decrypt-encrypt c plaintext key ciphertext reads decodes opens text e = by_key (load_key c key) e
  where
    Sealed : Bytes → Bytes → Bytes
    Sealed gcm nonce = nonce ++ c.seal gcm nonce (c.bytes_of plaintext)

    by_nonce :
        (gcm : Bytes) (o : Option Bytes)
        → c.read_random c.nonce_size ≡ o
        → bind_crypto
            (require no_nonce o)
            (λ nonce. crypto_value (c.encode_to_string (Sealed gcm nonce)))
          ≡ crypto_value ciphertext
        → bind_crypto (require bad_ciphertext (c.decode_string ciphertext)) (open_data c gcm)
          ≡ crypto_value plaintext
    by_nonce gcm none r h = no_error no_nonce ciphertext h
    by_nonce gcm (some nonce) r h =
        subst
          (λ t.
            bind_crypto (require bad_ciphertext (c.decode_string t)) (open_data c gcm)
            ≡ crypto_value plaintext)
          (ap text_in h)
          (rw (decodes (Sealed gcm nonce))
            (open_data-seal c gcm nonce plaintext (reads c.nonce_size nonce r) opens text))

    by_gcm :
        (g : Crypto Bytes)
        → bind_crypto g (λ gcm.
          bind_crypto
            (require no_nonce (c.read_random c.nonce_size))
            (λ nonce. crypto_value (c.encode_to_string (Sealed gcm nonce))))
          ≡ crypto_value ciphertext
        → bind_crypto
            (require bad_ciphertext (c.decode_string ciphertext))
            (λ sealed. bind_crypto g (λ gcm. open_data c gcm sealed))
          ≡ crypto_value plaintext
    by_gcm (crypto_error x) h = no_error x ciphertext h
    by_gcm (crypto_value gcm) h = by_nonce gcm (c.read_random c.nonce_size) refl h

    by_key :
        (k : Crypto Bytes)
        → bind_crypto k (λ key. bind_crypto (make_gcm c key) (λ gcm.
          bind_crypto
            (require no_nonce (c.read_random c.nonce_size))
            (λ nonce. crypto_value (c.encode_to_string (Sealed gcm nonce)))))
          ≡ crypto_value ciphertext
        → bind_crypto k (λ key.
          bind_crypto
            (require bad_ciphertext (c.decode_string ciphertext))
            (λ sealed. bind_crypto (make_gcm c key) (λ gcm. open_data c gcm sealed)))
          ≡ crypto_value plaintext
    by_key (crypto_error x) h = no_error x ciphertext h
    by_key (crypto_value k) h = by_gcm (make_gcm c k) h
