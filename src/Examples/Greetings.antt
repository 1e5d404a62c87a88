-- ===== src/Examples/Greetings.antt =====
-- crates/datum-protocol/src: the greeting of a pool and the two loops of a session, at concrete inputs.
use datum_rs.Common.{
  ℕ, ◌-◌, ◌≡◌, refl, ap, arith, List, [], ◌∷◌, ◌++◌, length, length-append, take, take_front,
  replicate, map, to_le_bytes, ok, some,
}
use datum_rs.Protocol.Crypto.{IsSealedBox, IsSigner}
use datum_rs.Protocol.Handshake.{ClientKeypairs, contains_nul}
use datum_rs.Protocol.Session.{ClientError, Connected, send_all, recv_all}
use datum_rs.Protocol.Session.Delivery.{InStep}
use datum_rs.Protocol.Events.{UpstreamEvent}
use datum_rs.Protocol.Client.{
  UpstreamCommand, request_coinbaser, command_frame, connect, run_commands, run_events,
}
use datum_rs.Protocol.Client.Streams.{
  delivered, run_commands-recv_all, run_events-delivered, run_events_ends,
}
use datum_rs.Protocol.MockPool.{MockPool, answer_bytes}
use datum_rs.Protocol.MockPool.Greeting.{
  HasKeySizes, IsHello, greeted_connection, connect-answer_bytes,
}
use datum_rs.Examples.Wire.{plain_crypto}
use datum_rs.Examples.Sessions.{plain_crypto-IsSecretBox, side}

plain_crypto-IsSealedBox : (pk sk : List ℕ) → IsSealedBox plain_crypto pk sk
plain_crypto-IsSealedBox pk sk = record {
  boxed = λ plaintext. (
    plaintext ++ replicate 48 0,
    refl,
    length-append plaintext (replicate 48 0),
    ap ok (shorter plaintext),
  );
}
  where
    shorter : (m : List ℕ) → take (length (m ++ replicate 48 0) - 48) (m ++ replicate 48 0) ≡ m
    shorter m =
        take_front (length (m ++ replicate 48 0) - 48) m (replicate 48 0)
          (omega (arith, length-append m (replicate 48 0)))

plain_crypto-IsSigner : (pk sk : List ℕ) → IsSigner plain_crypto pk sk
plain_crypto-IsSigner pk sk = record { signed = λ message. (replicate 64 9, refl, refl, refl) }

abbrev client_keys : ClientKeypairs
client_keys = record {
  long_term_ed25519_pub = replicate 32 1;
  long_term_ed25519_sec = [];
  long_term_x25519_pub = replicate 32 2;
  long_term_x25519_sec = [];
  session_ed25519_pub = replicate 32 3;
  session_ed25519_sec = [];
  session_x25519_pub = replicate 32 4;
  session_x25519_sec = [];
}

abbrev pool : MockPool
pool = record {
  long_term_x25519_pub = [];
  long_term_x25519_sec = [];
  session_ed25519_pub = replicate 32 5;
  session_x25519_pub = replicate 32 6;
  motd = 104 ∷ 105 ∷ [];
}

sizes : HasKeySizes client_keys pool
sizes = record {
  long_term_ed25519 = refl;
  long_term_x25519 = refl;
  session_ed25519 = refl;
  session_x25519 = refl;
  pool_ed25519 = refl;
  pool_x25519 = refl;
}

texts-IsHello : IsHello (118 ∷ []) (99 ∷ 100 ∷ []) 0xDEADBEEF (7 ∷ 8 ∷ []) (104 ∷ 105 ∷ [])
unfolding contains_nul
texts-IsHello = record {
  version_plain = refl;
  client_id_plain = refl;
  texts_short = omega arith;
  some_padding = omega arith;
  padding_fits = omega arith;
  nk_fits = omega arith;
  motd_plain = refl;
  motd_short = omega arith;
}

connect-answer_bytes_example :
    connect plain_crypto client_keys
      (118 ∷ [])
      (99 ∷ 100 ∷ [])
      0xDEADBEEF
      (7 ∷ 8 ∷ [])
      []
      (answer_bytes plain_crypto pool)
    ≡ ok (
      greeted_connection plain_crypto client_keys pool sizes
          (plain_crypto-IsSealedBox [] [])
          (plain_crypto-IsSealedBox (replicate 32 4) [])
          (plain_crypto-IsSigner (replicate 32 1) [])
          (118 ∷ [])
          (99 ∷ 100 ∷ [])
          0xDEADBEEF
          (7 ∷ 8 ∷ [])
          texts-IsHello
          []
          refl,
      [],
    )
connect-answer_bytes_example =
    connect-answer_bytes plain_crypto client_keys pool sizes (plain_crypto-IsSealedBox [] [])
      (plain_crypto-IsSealedBox (replicate 32 4) []) (plain_crypto-IsSigner (replicate 32 1) [])
      (118 ∷ []) (99 ∷ 100 ∷ []) 0xDEADBEEF (7 ∷ 8 ∷ []) texts-IsHello [] refl

side-InStep : InStep side side
side-InStep = record { key_word = omega arith; same_obf = refl; same_key = refl; same_nonce = refl }

abbrev asking : List (UpstreamCommand × List ℕ)
asking = (request_coinbaser 312500000 (replicate 32 7), []) ∷ []

run_commands-recv_all_example :
    (a' : Connected) × (b' : Connected) × (out : List ℕ) × (run_commands plain_crypto side asking
      ≡ (out, ok a'))
    × (recv_all plain_crypto side 1 (out ++ (9 ∷ [])) ≡ ok (b', map command_frame asking, 9 ∷ []))
    × InStep a' b'
unfolding command_frame to_le_bytes
run_commands-recv_all_example =
    run_commands-recv_all plain_crypto plain_crypto-IsSecretBox asking side side (9 ∷ [])
      side-InStep ((omega arith, omega arith), tt)

-- Two commands, and two frames that have no body.
abbrev three_frames : List (ℕ × List ℕ)
three_frames = (5, 0x10 ∷ []) ∷ (1, []) ∷ (5, []) ∷ []

run_events-delivered_example :
    (a' : Connected) × (out : List ℕ) × (send_all plain_crypto side three_frames ≡ ok (a', out))
    × (run_events plain_crypto 4 side out ≡ delivered three_frames)
run_events-delivered_example =
    run_events-delivered plain_crypto plain_crypto-IsSecretBox three_frames side side 4 side-InStep
      ((omega arith, omega arith), ((omega arith, omega arith), ((omega arith, omega arith), tt)))
      (omega arith)

run_events_ends_example :
    (events : List UpstreamEvent) × (e : ClientError) × (run_events plain_crypto 6 side
        (1 ∷ 2 ∷ 3 ∷ 4 ∷ 5 ∷ [])
      ≡ (events, some e))
run_events_ends_example = run_events_ends plain_crypto 6 side (1 ∷ 2 ∷ 3 ∷ 4 ∷ 5 ∷ []) (omega arith)
