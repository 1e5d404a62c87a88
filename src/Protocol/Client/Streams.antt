-- ===== src/Protocol/Client/Streams.antt =====
-- The two loops of Connected::run, crates/datum-protocol/src/client.rs, over whole streams of frames.
use datum_rs.Common.{
  ℕ, zero, suc, ◌+◌, ◌*◌, ◌≤◌, ◌<◌, ◌≡◌, inl, inr, refl, ap, arith, List, [], ◌∷◌, ◌++◌, map,
  length, length-drop, All, ltb, Result, ok, err, fail_if, to_le_bytes, from_le_bytes, >>=-ok_parts,
  Result-cases, Option, some, append_assoc,
}
use datum_rs.Protocol.Crypto.{DatumCrypto, IsSecretBox}
use datum_rs.Protocol.Frame.{FrameHeader, unpack}
use datum_rs.Protocol.Obfuscation.{decrypt}
use datum_rs.Protocol.Session.{
  ClientError, io, oversized_response, Connected, channel_header, read_exact, open_body, recv_frame,
  send_all, recv_all,
}
use datum_rs.Protocol.Session.Delivery.{
  InStep, Fits, stepped, stepped_back, send_recv_one, stepped-InStep,
}
use datum_rs.Protocol.Events.{UpstreamEvent, decode_event}
use datum_rs.Protocol.Client.{
  UpstreamCommand, command_frame, client_error, on_event, run_commands, run_events,
}

-- What the frames of a peer amount to: the events, and the error that ends the loop, which is the
-- end of the socket unless a frame does not decode.
pub delivered : List (ℕ × List ℕ) → List UpstreamEvent × Option ClientError
delivered [] = ([], some io)
delivered ((cmd, body) ∷ frames) =
    on_event (decode_event (channel_header 0 cmd) body) (delivered frames)

abbrev unread : Result ClientError (Connected × FrameHeader × List ℕ × List ℕ) → List ℕ
unread (ok (conn, header, body, rest)) = rest
unread (err e) = []

read_exact-shorter :
    (n : ℕ) (input xs rest : List ℕ)
    → read_exact n input ≡ ok (xs, rest)
    → length rest + n ≤ length input
unfolding read_exact
read_exact-shorter n input xs rest e = ground (arith, e, length-drop n input)

module _ (c : DatumCrypto) where
  decode_event-cmd_len :
      (len cmd : ℕ) (body : List ℕ)
      → decode_event (channel_header len cmd) body ≡ decode_event (channel_header 0 cmd) body
  unfolding decode_event channel_header
  decode_event-cmd_len len cmd body = refl

  recv_frame-shorter :
      (conn conn' : Connected) (input rest body : List ℕ) (header : FrameHeader)
      → recv_frame c conn input ≡ ok (conn', header, body, rest)
      → length rest + 4 ≤ length input
  unfolding recv_frame
  recv_frame-shorter conn conn' input rest body header e =
      let ((h, i1), p, q) = >>=-ok_parts (read_exact 4 input) _ e in
      let (obf, word) = decrypt conn.receiver_obf (from_le_bytes h) in
      let head : FrameHeader = unpack (to_le_bytes 4 word) in
      let (u, p', q') =
        >>=-ok_parts
          (fail_if (ltb (16 * 1024 * 1024) head.cmd_len) (oversized_response head.cmd_len)) _ q in
      let ((raw, i2), p'', q'') = >>=-ok_parts (read_exact head.cmd_len i1) _ q' in
      let ((opened, pt), p3, q3) =
        >>=-ok_parts (open_body c (record conn { receiver_obf = obf }) head raw) _ q'' in
      let same : i2 ≡ rest = ap unread q3 in
      omega (
        arith,
        read_exact-shorter 4 input h i1 p,
        read_exact-shorter head.cmd_len i1 raw i2 p'',
        ap length same,
      )

  recv_frame-nil : (conn : Connected) → recv_frame c conn [] ≡ err io
  unfolding recv_frame read_exact
  recv_frame-nil conn = refl

  -- The loop over the frames ends: one unit of fuel more than there are bytes is enough.
  pub run_events_ends :
      (fuel : ℕ) (conn : Connected) (input : List ℕ)
      → length input < fuel
      → (events : List UpstreamEvent) × (e : ClientError) × (run_events c fuel conn input
          ≡ (events, some e))
  unfolding run_events
  run_events_ends zero conn input h = absurd (omega arith)
  run_events_ends (suc fuel) conn input h = elim (Result-cases (recv_frame c conn input)) [
    | inl (e, q) ↦ ([], e, rw q)
    | inr ((conn', header, body, rest), q) ↦ elim (Result-cases (decode_event header body)) [
      | inl (e, d) ↦ ([], client_error e, rw (q, d))
      | inr (event, d) ↦
          let (events, e, r) =
            run_events_ends fuel conn' rest
              (omega (arith, recv_frame-shorter conn conn' input rest body header q)) in
          (event ∷ events, e, rw (q, d, r))
    ]
  ]

module _ (c : DatumCrypto) (box : IsSecretBox c) where
  -- Commands whose frames fit are all written by the command loop, without an error, whatever their
  -- number; a peer in step with the client reads their frames off the socket, whole and in order,
  -- leaves whatever bytes follow, and is in step with the client again afterwards.
  pub run_commands-recv_all :
      (cmds : List (UpstreamCommand × List ℕ)) (a b : Connected) (rest : List ℕ)
      → InStep a b
      → All Fits (map command_frame cmds)
      → (a' : Connected) × (b' : Connected) × (out : List ℕ) × (run_commands c a cmds
          ≡ (out, ok a'))
        × (recv_all c b (length cmds) (out ++ rest) ≡ ok (b', map command_frame cmds, rest))
        × InStep a' b'
  unfolding run_commands recv_all channel_header
  run_commands-recv_all [] a b rest s h = (a, b, [], refl, refl, s)
  run_commands-recv_all (cmd ∷ cmds) a b rest s (h, hs) =
      let (a', b', more, sent', got', s') =
        run_commands-recv_all cmds (stepped a) (stepped_back b) rest (stepped-InStep c box a b s)
          hs in
      let (out, len, sent, got) =
        send_recv_one c box a b (command_frame cmd).0 (command_frame cmd).1 (more ++ rest) s h in
      (a', b', out ++ more, rw (sent, sent'), rw (append_assoc, got, got'), s')

  -- Frames that fit, sent by a peer that the client is in step with, reach the runtime as the events
  -- that they decode to, in order and up to the first that does not decode; the loop then ends with
  -- that frame's error, or with the end of the socket. One unit of fuel more than there are frames is
  -- enough.
  pub run_events-delivered :
      (frames : List (ℕ × List ℕ)) (a b : Connected) (fuel : ℕ)
      → InStep a b
      → All Fits frames
      → length frames < fuel
      → (a' : Connected) × (out : List ℕ) × (send_all c a frames ≡ ok (a', out))
        × (run_events c fuel b out ≡ delivered frames)
  unfolding send_all run_events delivered
  run_events-delivered frames a b zero s h enough = absurd (omega arith)
  run_events-delivered [] a b (suc fuel) s h enough = (a, [], refl, rw (recv_frame-nil c b))
  run_events-delivered ((cmd, plaintext) ∷ frames) a b (suc fuel) s (h, hs) enough =
      let (a', more, sent', got') =
        run_events-delivered frames (stepped a) (stepped_back b) fuel (stepped-InStep c box a b s)
          hs (omega arith) in
      let (out, len, sent, got) = send_recv_one c box a b cmd plaintext more s h in
      (a', out ++ more, rw (sent, sent'), rw (got, got', decode_event-cmd_len c len cmd plaintext))
