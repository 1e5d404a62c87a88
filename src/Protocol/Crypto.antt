-- ===== src/Protocol/Crypto.antt =====
-- crates/datum-protocol/src/crypto.rs: the trait that the protocol's cryptography stands behind.
-- Its implementation is the dryoc crate, so it is a parameter here. Of the trait's methods the record
-- has those that the modelled code calls; generated keys and random bytes are arguments there.
use datum_rs.Common.{ℕ, ◌+◌, ◌≡◌, List, length, Result, ok}
use Prim.Native.String.{String}

pub data CryptoError : Type 0 where
  invalid_key_length : CryptoError
  dryoc : String → CryptoError
  hex : String → CryptoError

pub record DatumCrypto : Type 0 where
  pub box_seal : List ℕ → List ℕ → Result CryptoError (List ℕ)
  pub box_seal_open : List ℕ → List ℕ → List ℕ → Result CryptoError (List ℕ)
  pub box_easy_afternm : List ℕ → List ℕ → List ℕ → Result CryptoError (List ℕ)
  pub box_open_easy_afternm : List ℕ → List ℕ → List ℕ → Result CryptoError (List ℕ)
  pub box_beforenm : List ℕ → List ℕ → Result CryptoError (List ℕ)
  pub sign_detached : List ℕ → List ℕ → Result CryptoError (List ℕ)
  pub verify_detached : List ℕ → List ℕ → List ℕ → Result CryptoError (Unit {0})

-- What dryoc documents of its secret boxes: sealing succeeds and adds a 16-byte MAC, and opening
-- under the same key and nonce gives the plaintext back.
pub record IsSecretBox (c : DatumCrypto) : Type 0 where
  pub sealed :
      (key nonce plaintext : List ℕ)
      → (ct : List ℕ) × (c.box_easy_afternm key nonce plaintext ≡ ok ct)
        × (length ct ≡ length plaintext + 16)
        × (c.box_open_easy_afternm key nonce ct ≡ ok plaintext)

-- What it documents of a sealed box for a key pair: sealing to the public key succeeds and adds 48
-- bytes, and the pair opens the box.
pub record IsSealedBox (c : DatumCrypto) (public secret : List ℕ) : Type 0 where
  pub boxed :
      (plaintext : List ℕ)
      → (ct : List ℕ) × (c.box_seal public plaintext ≡ ok ct)
        × (length ct ≡ length plaintext + 48)
        × (c.box_seal_open ct public secret ≡ ok plaintext)

-- What it documents of the signatures of a key pair: signing gives 64 bytes, which verify.
pub record IsSigner (c : DatumCrypto) (public secret : List ℕ) : Type 0 where
  pub signed :
      (message : List ℕ)
      → (signature : List ℕ) × (c.sign_detached message secret ≡ ok signature)
        × (length signature ≡ 64)
        × (c.verify_detached message signature public ≡ ok tt)
