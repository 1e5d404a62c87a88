-- ===== src/Examples/Wire.antt =====
-- A cryptography for the examples of crates/datum-protocol/src.
use datum_rs.Common.{◌-◌, [], ◌++◌, length, take, replicate, ok}
use datum_rs.Protocol.Crypto.{DatumCrypto}

-- A seal is zeros at the end, a signature always the same 64 bytes.
abbrev pub plain_crypto : DatumCrypto
plain_crypto = record {
  box_seal = λ pk m. ok (m ++ replicate 48 0);
  box_seal_open = λ m pk sk. ok (take (length m - 48) m);
  box_easy_afternm = λ k n m. ok (m ++ replicate 16 0);
  box_open_easy_afternm = λ k n m. ok (take (length m - 16) m);
  box_beforenm = λ pk sk. ok [];
  sign_detached = λ m sk. ok (replicate 64 9);
  verify_detached = λ m s pk. ok tt;
}
