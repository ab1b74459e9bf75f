-- ===== src/Config/Crypto.antt =====
-- internal/config/crypto.go: `Encrypt` and `Decrypt`.
--
-- `Primitives` stands for encoding/base64, crypto/aes, crypto/cipher and crypto/rand, and for the
-- conversions between a string and its bytes. A byte is a number.
pub mod RoundTrip
use alertmesh_new.Prelude.{
  ℕ, zero, suc, String, Bool, true, false, not, Option, none, some, List, [], ◌∷◌, ◌++◌, ◌==◌, ltb,
  length, if◌then◌else◌,
}

abbrev pub Bytes : Type 0
Bytes = List ℕ

pub record Primitives : Type 0 where
  -- base64.StdEncoding
  pub decode_string : String → Option Bytes
  pub encode_to_string : Bytes → String
  -- aes.NewCipher and cipher.NewGCM of a key: whether they succeed
  pub new_cipher : Bytes → Bool
  pub new_gcm : Bytes → Bool
  pub nonce_size : ℕ
  -- Seal and Open under a key, with a nonce; `none` is an error
  pub seal : Bytes → Bytes → Bytes → Bytes
  pub open_sealed : Bytes → Bytes → Bytes → Option Bytes
  -- io.ReadFull(rand.Reader) of so many bytes
  pub read_random : ℕ → Option Bytes
  pub bytes_of : String → Bytes
  pub string_of : Bytes → String

pub data CryptoError : Type 0 where
  bad_key : CryptoError
  bad_key_length : ℕ → CryptoError
  no_cipher : CryptoError
  no_gcm : CryptoError
  no_nonce : CryptoError
  bad_ciphertext : CryptoError
  too_short : CryptoError
  not_authentic : CryptoError

pub data Crypto (A : Type 0) : Type 0 where
  crypto_error : CryptoError → Crypto A
  crypto_value : A → Crypto A

unfoldable pub bind_crypto : {A B : Type 0} → Crypto A → (A → Crypto B) → Crypto B
bind_crypto (crypto_error e) f = crypto_error e
bind_crypto (crypto_value a) f = f a

abbrev pub require : {A : Type 0} → CryptoError → Option A → Crypto A
require e none = crypto_error e
require e (some a) = crypto_value a

abbrev pub check : {A : Type 0} → CryptoError → Bool → A → Crypto A
check e ok a = if ok then crypto_value a else crypto_error e

abbrev pub take_bytes : ℕ → Bytes → Bytes
take_bytes zero bs = []
take_bytes (suc n) [] = []
take_bytes (suc n) (b ∷ bs) = b ∷ take_bytes n bs

abbrev pub drop_bytes : ℕ → Bytes → Bytes
drop_bytes zero bs = bs
drop_bytes (suc n) [] = []
drop_bytes (suc n) (b ∷ bs) = drop_bytes n bs

module _ (c : Primitives) where
  -- The key, decoded and of the right length.
  unfoldable pub load_key : String → Crypto Bytes
  unfolding bind_crypto
  load_key key_base64 =
      bind_crypto (require bad_key (c.decode_string key_base64))
        (λ key. check (bad_key_length (length key)) (length key == 32) key)

  unfoldable pub make_gcm : Bytes → Crypto Bytes
  unfolding bind_crypto
  make_gcm key =
      bind_crypto (check no_cipher (c.new_cipher key) key) (λ k. check no_gcm (c.new_gcm k) k)

  unfoldable pub encrypt : String → String → Crypto String
  unfolding bind_crypto load_key make_gcm
  encrypt plaintext key_base64 = bind_crypto (load_key key_base64) (λ key.
      bind_crypto (make_gcm key) (λ gcm.
        bind_crypto (require no_nonce (c.read_random c.nonce_size)) (λ nonce.
          crypto_value (c.encode_to_string (nonce ++ c.seal gcm nonce (c.bytes_of plaintext))))))

  unfoldable pub open_data : Bytes → Bytes → Crypto String
  unfolding bind_crypto
  open_data gcm sealed =
      if ltb (length sealed) c.nonce_size
      then crypto_error too_short
      else bind_crypto
          (require not_authentic
            (c.open_sealed gcm (take_bytes c.nonce_size sealed) (drop_bytes c.nonce_size sealed)))
          (λ plaintext. crypto_value (c.string_of plaintext))

  unfoldable pub decrypt : String → String → Crypto String
  unfolding bind_crypto load_key make_gcm open_data
  decrypt ciphertext_base64 key_base64 = bind_crypto (load_key key_base64) (λ key.
      bind_crypto (require bad_ciphertext (c.decode_string ciphertext_base64))
        (λ sealed. bind_crypto (make_gcm key) (λ gcm. open_data gcm sealed)))
