-- ===== src/Config/Tests.antt =====
-- internal/config: a round trip with primitives that can be run.
use Prim.Native.String.{[], ◌∷◌}
use Prim.Native.Char.{code}
use mathlib.Core.List.{[] as nil, ◌∷◌ as cons}
use alertmesh_new.Prelude.{
  ℕ, zero, suc, ◌+◌, String, true, some, ◌++◌, ◌==◌, length, if◌then◌else◌, ◌≡◌, refl, ap, ◌∙◌,
  subst, arith,
}
use mathlib.Core.Option.{some-injective}
use alertmesh_new.Config.Crypto.{Bytes, Primitives, crypto_value, encrypt, decrypt}
use alertmesh_new.Config.Crypto.RoundTrip.{decrypt-encrypt}

-- A byte as so many strokes and a comma.
abbrev unary : ℕ → String → String
unary zero rest = "," ∷ rest
unary (suc n) rest = "1" ∷ unary n rest

abbrev encoded : Bytes → String
encoded nil = []
encoded (cons n b) = unary n (encoded b)

abbrev decoded_from : ℕ → String → Bytes
decoded_from n [] = nil
decoded_from n (c ∷ s) = if code c == 44 then cons n (decoded_from 0 s) else decoded_from (suc n) s

decoded-unary :
    (m n : ℕ) (rest : String) → decoded_from m (unary n rest) ≡ cons (m + n) (decoded_from 0 rest)
decoded-unary m zero rest = ap (λ k. cons k (decoded_from 0 rest)) (omega arith)
decoded-unary m (suc n) rest =
    decoded-unary (suc m) n rest ∙ ap (λ k. cons k (decoded_from 0 rest)) (omega arith)

decoded-encoded : (b : Bytes) → decoded_from 0 (encoded b) ≡ b
decoded-encoded nil = refl
decoded-encoded (cons n b) =
    decoded-unary 0 n (encoded b)
    ∙ ap (λ k. cons k (decoded_from 0 (encoded b))) (add_none n)
    ∙ ap (λ l. cons n l) (decoded-encoded b)
  where
    add_none : (k : ℕ) → 0 + k ≡ k
    add_none k = omega arith

abbrev zeros : ℕ → Bytes
zeros zero = nil
zeros (suc n) = cons 0 (zeros n)

length-zeros : (n : ℕ) → length (zeros n) ≡ n
length-zeros zero = refl
length-zeros (suc n) = ap suc (length-zeros n)

abbrev primitives : Primitives
primitives = record {
  decode_string = λ s. some (decoded_from 0 s);
  encode_to_string = encoded;
  new_cipher = λ key. true;
  new_gcm = λ key. true;
  nonce_size = 12;
  seal = λ key nonce plaintext. plaintext;
  open_sealed = λ key nonce body. some body;
  read_random = λ n. some (zeros n);
  bytes_of = λ s. cons 7 nil;
  string_of = λ b. "token";
}

-- Thirty-two zero bytes.
abbrev key : String
key = ",,,,,,,,,,,,,,,,,,,,,,,,,,,,,,,,"

decrypt-encrypt_example :
    decrypt primitives (encoded (zeros 12 ++ cons 7 nil)) key ≡ crypto_value "token"
unfolding encrypt
decrypt-encrypt_example =
    decrypt-encrypt primitives "token" key (encoded (zeros 12 ++ cons 7 nil))
      (λ n b e. subst (λ x. length x ≡ n) (some-injective (zeros n) b e) (length-zeros n))
      (λ b. ap some (decoded-encoded b)) (λ k n p. refl) refl refl
