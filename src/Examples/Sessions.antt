-- ===== src/Examples/Sessions.antt =====
-- crates/datum-protocol/src: the session, at concrete inputs.
use datum_rs.Common.{
  ℕ, ◌-◌, ◌≡◌, refl, ap, arith, List, [], ◌∷◌, ◌++◌, length, length-append, take, take_front,
  replicate, ok,
}
use datum_rs.Protocol.Crypto.{IsSecretBox}
use datum_rs.Protocol.Session.{Connected, send_all, recv_all}
use datum_rs.Protocol.Session.Delivery.{InStep, recv_all-send_all}
use datum_rs.Examples.Wire.{plain_crypto}

pub plain_crypto-IsSecretBox : IsSecretBox plain_crypto
plain_crypto-IsSecretBox = record {
  sealed = λ key nonce plaintext. (
    plaintext ++ replicate 16 0,
    refl,
    length-append plaintext (replicate 16 0),
    ap ok (shorter plaintext),
  );
}
  where
    shorter : (m : List ℕ) → take (length (m ++ replicate 16 0) - 16) (m ++ replicate 16 0) ≡ m
    shorter m =
        take_front (length (m ++ replicate 16 0) - 16) m (replicate 16 0)
          (omega (arith, length-append m (replicate 16 0)))

abbrev pub side : Connected
side = record {
  sender_obf = record { key = 7 };
  receiver_obf = record { key = 7 };
  precomp_key = [];
  sender_nonce = replicate 24 0;
  receiver_nonce = replicate 24 0;
}

abbrev two_frames : List (ℕ × List ℕ)
two_frames = (5, 1 ∷ 2 ∷ []) ∷ (3, []) ∷ []

recv_all-send_all_example :
    (a' : Connected) × (b' : Connected) × (out : List ℕ) × (send_all plain_crypto side two_frames
      ≡ ok (a', out))
    × (recv_all plain_crypto side 2 (out ++ (9 ∷ [])) ≡ ok (b', two_frames, 9 ∷ []))
    × InStep a' b'
recv_all-send_all_example =
    recv_all-send_all plain_crypto plain_crypto-IsSecretBox two_frames side side (9 ∷ [])
      (record { key_word = omega arith; same_obf = refl; same_key = refl; same_nonce = refl })
      ((omega arith, omega arith), ((omega arith, omega arith), tt))
