-- ===== src/Protocol/Session/Delivery.antt =====
-- Frames that one side of a connection sends and the other receives: send_frame and recv_frame of
-- crates/datum-protocol/src/client.rs.
use datum_rs.Common.{
  ℕ, ◌+◌, ◌*◌, ◌%◌, ◌^◌, ◌<◌, ◌≡◌, refl, ap, bit_xor, arith, false, List, [], ◌∷◌, ◌++◌, length,
  length-append, take_front, drop_front, All, ok, to_le_bytes, ltb, append_assoc,
}
use datum_rs.Protocol.Crypto.{DatumCrypto, IsSecretBox}
use datum_rs.Protocol.Frame.{FrameHeader, packed_word}
use datum_rs.Protocol.Frame.Codec.{IsValid, pack_ok}
use datum_rs.Protocol.Obfuscation.{HeaderObfuscator, encrypt, decrypt, datum_header_xor_feedback}
use datum_rs.Protocol.Obfuscation.Chain.{IsWord, feedback-IsWord}
use datum_rs.Protocol.Obfuscation.Header.{packed_bytes_word, length-wire_header, unpack-wire_header}
use datum_rs.Protocol.Nonce.{increment_nonce}
use datum_rs.Protocol.Session.{
  Connected, channel_header, send_frame, read_exact, recv_frame, send_all, recv_all,
}

-- The sending half of `a` and the receiving half of `b` agree.
pub record InStep (a b : Connected) : Type 0 where
  pub key_word : IsWord a.sender_obf.key
  pub same_obf : b.receiver_obf ≡ a.sender_obf
  pub same_key : b.precomp_key ≡ a.precomp_key
  pub same_nonce : b.receiver_nonce ≡ a.sender_nonce

-- The plaintext and its 16-byte MAC fit the header's length field, and the command its five bits.
abbrev pub Fits : ℕ × List ℕ → Type 0
Fits (cmd, plaintext) = (length plaintext + 16 < 2 ^ 22) × (cmd < 32)

abbrev pub stepped : Connected → Connected
stepped a = record a {
  sender_obf = record { key = datum_header_xor_feedback a.sender_obf.key };
  sender_nonce = increment_nonce a.sender_nonce;
}

abbrev pub stepped_back : Connected → Connected
stepped_back b = record b {
  receiver_obf = record { key = datum_header_xor_feedback b.receiver_obf.key };
  receiver_nonce = increment_nonce b.receiver_nonce;
}

pub read_front : (n : ℕ) (xs ys : List ℕ) → length xs ≡ n → read_exact n (xs ++ ys) ≡ ok (xs, ys)
unfolding read_exact
read_front n xs ys e = rw (take_front n xs ys e, drop_front n xs ys e, enough)
  where
    enough : ltb (length (xs ++ ys)) n ≡ false
    enough = ground (arith, length-append xs ys)

module _ (c : DatumCrypto) where
  header-IsValid : (len cmd : ℕ) → len < 2 ^ 22 → cmd < 32 → IsValid (channel_header len cmd)
  unfolding channel_header
  header-IsValid len cmd p q = record { len_fits = p; cmd_fits = q }

  abbrev pub wire : ℕ → ℕ → ℕ → List ℕ
  wire len cmd key = to_le_bytes 4 (bit_xor (packed_word (channel_header len cmd)) key)

  send_one :
      (a : Connected) (cmd : ℕ) (plaintext ct : List ℕ)
      → c.box_easy_afternm a.precomp_key a.sender_nonce plaintext ≡ ok ct
      → length ct < 2 ^ 22
      → cmd < 32
      → IsWord a.sender_obf.key
      → send_frame c a cmd plaintext ≡ ok (stepped a, wire (length ct) cmd a.sender_obf.key ++ ct)
  unfolding send_frame encrypt
  send_one a cmd plaintext ct sealed fits small hk =
      rw (sealed, len, pack_ok header valid, packed_bytes_word header valid a.sender_obf.key hk)
    where
      header : FrameHeader
      header = channel_header (length ct) cmd

      valid : IsValid header
      valid = header-IsValid (length ct) cmd fits small

      len : length ct % 2 ^ 32 ≡ length ct
      len = omega arith

  recv_one :
      (b : Connected) (cmd : ℕ) (plaintext ct rest : List ℕ)
      → c.box_open_easy_afternm b.precomp_key b.receiver_nonce ct ≡ ok plaintext
      → length ct < 2 ^ 22
      → cmd < 32
      → IsWord b.receiver_obf.key
      → recv_frame c b (wire (length ct) cmd b.receiver_obf.key ++ (ct ++ rest))
        ≡ ok (stepped_back b, channel_header (length ct) cmd, plaintext, rest)
  unfolding recv_frame decrypt channel_header
  recv_one b cmd plaintext ct rest opens fits small hk = rw (
    read_front 4 (wire (length ct) cmd b.receiver_obf.key) (ct ++ rest)
        (length-wire_header header valid b.receiver_obf.key hk),
    unpack-wire_header header valid b.receiver_obf.key hk,
    short,
    read_front (length ct) ct rest refl,
    opens,
  )
    where
      header : FrameHeader
      header = channel_header (length ct) cmd

      valid : IsValid header
      valid = header-IsValid (length ct) cmd fits small

      short : ltb (16 * 1024 * 1024) (length ct) ≡ false
      short = ground arith

module _ (c : DatumCrypto) (box : IsSecretBox c) where
  -- One frame: what is written, and what the other side makes of it with any bytes behind it.
  pub send_recv_one :
      (a b : Connected) (cmd : ℕ) (plaintext rest : List ℕ)
      → InStep a b
      → Fits (cmd, plaintext)
      → (out : List ℕ) × (len : ℕ) × (send_frame c a cmd plaintext ≡ ok (stepped a, out))
        × (recv_frame c b (out ++ rest)
            ≡ ok (stepped_back b, channel_header len cmd, plaintext, rest))
  send_recv_one a b cmd plaintext rest s (fits, small) =
      let (ct, sealed, len, opens) = box.sealed a.precomp_key a.sender_nonce plaintext in
      let short : length ct < 2 ^ 22 = omega (arith, len) in
      let key : b.receiver_obf.key ≡ a.sender_obf.key =
        ap (λ (o : HeaderObfuscator). o.key) s.same_obf in
      (
        wire c (length ct) cmd a.sender_obf.key ++ ct,
        length ct,
        send_one c a cmd plaintext ct sealed short small s.key_word,
        rw (append_assoc, ← key)
            (recv_one c b cmd plaintext ct rest (rw (s.same_key, s.same_nonce) opens) short small
              (rw key s.key_word)),
      )

  pub stepped-InStep : (a b : Connected) → InStep a b → InStep (stepped a) (stepped_back b)
  stepped-InStep a b s = record {
    key_word = feedback-IsWord a.sender_obf.key;
    same_obf = λ i. record { key = datum_header_xor_feedback (s.same_obf i).key };
    same_key = s.same_key;
    same_nonce = ap increment_nonce s.same_nonce;
  }

  -- Frames that fit are all sent, whatever their number and content; a peer whose receiving half
  -- agrees with the sender's state reads them off the socket with their commands, whole, in order,
  -- leaves whatever bytes follow, and agrees with the sender again afterwards.
  pub recv_all-send_all :
      (frames : List (ℕ × List ℕ)) (a b : Connected) (rest : List ℕ)
      → InStep a b
      → All Fits frames
      → (a' : Connected) × (b' : Connected) × (out : List ℕ) × (send_all c a frames ≡ ok (a', out))
        × (recv_all c b (length frames) (out ++ rest) ≡ ok (b', frames, rest))
        × InStep a' b'
  unfolding send_all recv_all channel_header
  recv_all-send_all [] a b rest s h = (a, b, [], refl, refl, s)
  recv_all-send_all ((cmd, plaintext) ∷ frames) a b rest s (h, hs) =
      let (a', b', more, sent', got', s') =
        recv_all-send_all frames (stepped a) (stepped_back b) rest (stepped-InStep a b s) hs in
      let (out, len, sent, got) = send_recv_one a b cmd plaintext (more ++ rest) s h in
      (a', b', out ++ more, rw (sent, sent'), rw (append_assoc, got, got'), s')
