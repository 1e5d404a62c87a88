-- ===== src/Protocol/MockPool/Greeting.antt =====
-- The greeting from end to end: DatumClient::connect of crates/datum-protocol/src/client.rs against the
-- pool of crates/datum-protocol/src/mock_pool.rs.
use datum_rs.Common.{
  ℕ, ◌+◌, ◌-◌, some, ◌*◌, ◌%◌, ◌^◌, ◌≤◌, ◌<◌, ◌≡◌, refl, sym, ap, ◌∙◌, arith, false, List, [], ◌∷◌,
  ◌++◌, length, take, drop, slice, length-append, length-drop, take_front, drop_front, drop_add, ok,
  ltb, leb, ◌==◌, ◌||◌, not, append_assoc, append-nil, to_le_bytes, length-to_le_bytes,
}
use datum_rs.Protocol.Crypto.{DatumCrypto, IsSealedBox, IsSigner}
use datum_rs.Protocol.Frame.Codec.{IsValid, pack_ok}
use datum_rs.Protocol.Obfuscation.{
  initial_sending_header_key, initial_sender, for_sender, for_receiver, decrypt,
  datum_header_xor_feedback, complement,
}
use datum_rs.Protocol.Obfuscation.Chain.{IsWord, feedback-IsWord}
use datum_rs.Protocol.Obfuscation.Header.{
  wire_header, packed_bytes_word, length-wire_header, unpack-wire_header,
}
use datum_rs.Protocol.Handshake.{
  ClientKeypairs, contains_nul, hello_fields, build_hello_payload, seal_hello,
  parse_received_header, hello_header,
}
use datum_rs.Protocol.Handshake.Hello.{parse_received_header-frame_for_hello}
use datum_rs.Protocol.Opcodes.{from_bits}
use datum_rs.Protocol.Nonce.{derive_session_nonces}
use datum_rs.Protocol.Session.{read_exact}
use datum_rs.Protocol.Session.Delivery.{read_front}
use datum_rs.Protocol.Client.{
  Established, until_nul, hello_bytes, echo_differs, read_response, connect,
}
use datum_rs.Protocol.MockPool.{
  MockPool, find_nk, response_plaintext, response_header, framed_response, answer_plaintext,
  handle_connection, answer_bytes,
}
use datum_rs.Protocol.MockPool.Layout.{
  keys_then, drop-keyed, first_key, second_key, third_key, fourth_key, take-keyed, find_nk-keyed,
  contains_nul-append, until_nul-text, same_bytes_self,
}

-- Public keys have 32 bytes.
pub record HasKeySizes (keys : ClientKeypairs) (pool : MockPool) : Type 0 where
  pub long_term_ed25519 : length keys.long_term_ed25519_pub ≡ 32
  pub long_term_x25519 : length keys.long_term_x25519_pub ≡ 32
  pub session_ed25519 : length keys.session_ed25519_pub ≡ 32
  pub session_x25519 : length keys.session_x25519_pub ≡ 32
  pub pool_ed25519 : length pool.session_ed25519_pub ≡ 32
  pub pool_x25519 : length pool.session_x25519_pub ≡ 32

-- The texts hold no NUL, the padding has 1 to 200 bytes, and all is short enough for the frames.
pub record IsHello (version client_id : List ℕ) (nk : ℕ) (padding motd : List ℕ) : Type 0 where
  pub version_plain : contains_nul version ≡ false
  pub client_id_plain : contains_nul client_id ≡ false
  pub texts_short : length version + length client_id < 2 ^ 19
  pub some_padding : 1 ≤ length padding
  pub padding_fits : length padding ≤ 200
  pub nk_fits : nk < 2 ^ 32
  pub motd_plain : contains_nul motd ≡ false
  pub motd_short : length motd < 2 ^ 21

module _ (c : DatumCrypto) (keys : ClientKeypairs) (pool : MockPool) (sized : HasKeySizes keys pool)
    (pool_box : IsSealedBox c pool.long_term_x25519_pub pool.long_term_x25519_sec)
    (session_box : IsSealedBox c keys.session_x25519_pub keys.session_x25519_sec)
    (signer : IsSigner c keys.long_term_ed25519_pub keys.long_term_ed25519_sec)
    (version client_id : List ℕ) (nk : ℕ) (padding : List ℕ)
    (hello : IsHello version client_id nk padding pool.motd) where
  abbrev tail : List ℕ → List ℕ
  tail signature =
      (version ++ client_id) ++ (0 ∷ (0xfe ∷ (to_le_bytes 4 nk ++ (padding ++ signature))))

  abbrev four : List ℕ → List ℕ
  four t =
      keys_then keys.long_term_ed25519_pub keys.long_term_x25519_pub keys.session_ed25519_pub
        keys.session_x25519_pub t

  hello-keyed :
      (signature : List ℕ)
      → hello_fields keys version client_id nk padding ++ signature ≡ four (tail signature)
  unfolding hello_fields
  hello-keyed signature = simp append_assoc

  length-hello_fields :
      length (hello_fields keys version client_id nk padding)
      ≡ 134 + length version + length client_id + length padding
  unfolding hello_fields
  length-hello_fields = simp length-append (omega (arith, sized, length-to_le_bytes 4 nk))

  built :
      (signature : List ℕ)
      → c.sign_detached (hello_fields keys version client_id nk padding) keys.long_term_ed25519_sec
        ≡ ok signature
      → build_hello_payload c keys version client_id nk padding
        ≡ ok (hello_fields keys version client_id nk padding ++ signature)
  unfolding build_hello_payload
  built signature e = rw (hello.version_plain, hello.client_id_plain, padded, e)
    where
      padded : (not (leb 1 (length padding)) || ltb 200 (length padding)) ≡ false
      padded = ground arith

  -- The pool's answer to the opened hello: the sealed response behind its header.
  abbrev response : List ℕ
  response = four (pool.session_ed25519_pub ++ (pool.session_x25519_pub ++ (pool.motd ++ (0 ∷ []))))

  response_key : ℕ
  response_key = datum_header_xor_feedback (complement nk)

  response_key-IsWord : IsWord response_key
  unfolding response_key
  response_key-IsWord = feedback-IsWord (complement nk)

  length-response : length response ≡ 193 + length pool.motd
  length-response = simp length-append (omega (arith, sized))

  header-IsValid :
      (ct : List ℕ) → length ct ≡ length response + 48 → IsValid (response_header (length ct))
  unfolding response_header
  header-IsValid ct e = record {
    len_fits = omega (arith, e, length-response, hello);
    cmd_fits = omega arith;
  }

  framed :
      (ct : List ℕ) (e : length ct ≡ length response + 48)
      → framed_response c pool nk ct
        ≡ ok (
            wire_header
              (response_header (length ct))
              (header-IsValid ct e)
              response_key
              response_key-IsWord
            ++ ct)
  unfolding framed_response response_key
  framed ct e = rw (
    len,
    pack_ok (response_header (length ct)) (header-IsValid ct e),
    packed_bytes_word (response_header (length ct)) (header-IsValid ct e) response_key
        response_key-IsWord,
  )
    where
      len : length ct % 2 ^ 32 ≡ length ct
      len = omega (arith, e, length-response, hello)

  abbrev plaintext : List ℕ → List ℕ
  plaintext signature = hello_fields keys version client_id nk padding ++ signature

  on_keyed {ℓ} :
      {A : Type ℓ} (f : List ℕ → A) (signature : List ℕ) (a : A)
      → f (four (tail signature)) ≡ a
      → f (plaintext signature) ≡ a
  on_keyed f signature a e = ap f (hello-keyed signature) ∙ e

  response_plaintext-response :
      (signature : List ℕ) → response_plaintext pool (plaintext signature) ≡ response
  unfolding response_plaintext
  response_plaintext-response signature =
      ap
        (λ (t : List ℕ).
          t ++ (pool.session_ed25519_pub ++ (pool.session_x25519_pub ++ (pool.motd ++ (0 ∷ [])))))
        (on_keyed (take 128) signature _ (
          take-keyed keys.long_term_ed25519_pub keys.long_term_x25519_pub keys.session_ed25519_pub
            keys.session_x25519_pub (tail signature) sized.long_term_ed25519 sized.long_term_x25519
            sized.session_ed25519 sized.session_x25519))
      ∙ simp append_assoc

  found_nk : (signature : List ℕ) → find_nk (plaintext signature) 128 ≡ some nk
  found_nk signature =
      on_keyed (λ (p : List ℕ). find_nk p 128) signature (some nk)
        (find_nk-keyed keys.long_term_ed25519_pub keys.long_term_x25519_pub keys.session_ed25519_pub
          keys.session_x25519_pub (tail signature) sized.long_term_ed25519 sized.long_term_x25519
          sized.session_ed25519 sized.session_x25519 (version ++ client_id) (padding ++ signature)
          nk (contains_nul-append version client_id hello.version_plain hello.client_id_plain)
          hello.nk_fits refl)

  module _ (signature : List ℕ) (long : length signature ≡ 64) where
    length-plaintext :
        length (plaintext signature) ≡ 198 + length version + length client_id + length padding
    length-plaintext = omega (
      arith,
      length-append (hello_fields keys version client_id nk padding) signature,
      length-hello_fields,
      long,
    )

    signed_part :
        take (length (plaintext signature) - 64) (plaintext signature)
        ≡ hello_fields keys version client_id nk padding
    signed_part =
        take_front (length (plaintext signature) - 64)
          (hello_fields keys version client_id nk padding) signature
          (omega (arith, length-plaintext, length-hello_fields))

    signature_part : drop (length (plaintext signature) - 64) (plaintext signature) ≡ signature
    signature_part =
        drop_front (length (plaintext signature) - 64)
          (hello_fields keys version client_id nk padding) signature
          (omega (arith, length-plaintext, length-hello_fields))

    first : slice (plaintext signature) 0 32 ≡ keys.long_term_ed25519_pub
    first =
        on_keyed (λ (p : List ℕ). slice p 0 32) signature _
          (first_key keys.long_term_ed25519_pub keys.long_term_x25519_pub keys.session_ed25519_pub
            keys.session_x25519_pub (tail signature) sized.long_term_ed25519 sized.long_term_x25519
            sized.session_ed25519 sized.session_x25519)

    fourth : slice (plaintext signature) 96 32 ≡ keys.session_x25519_pub
    fourth =
        on_keyed (λ (p : List ℕ). slice p 96 32) signature _
          (fourth_key keys.long_term_ed25519_pub keys.long_term_x25519_pub keys.session_ed25519_pub
            keys.session_x25519_pub (tail signature) sized.long_term_ed25519 sized.long_term_x25519
            sized.session_ed25519 sized.session_x25519)

    answered :
        (ct : List ℕ) (e : length ct ≡ length response + 48)
        → c.verify_detached
            (hello_fields keys version client_id nk padding)
            signature
            keys.long_term_ed25519_pub
          ≡ ok tt
        → c.box_seal keys.session_x25519_pub response ≡ ok ct
        → answer_plaintext c pool (plaintext signature)
          ≡ ok (
              wire_header
                (response_header (length ct))
                (header-IsValid ct e)
                response_key
                response_key-IsWord
              ++ ct)
    unfolding answer_plaintext
    answered ct e verifies seals = rw (
      enough,
      signed_part,
      signature_part,
      first,
      verifies,
      found_nk signature,
      fourth,
      response_plaintext-response signature,
      seals,
      framed ct e,
    )
      where
        enough : ltb (length (plaintext signature)) 192 ≡ false
        enough = ground (arith, length-plaintext)

  read_whole : (n : ℕ) (xs : List ℕ) → length xs ≡ n → read_exact n xs ≡ ok (xs, [])
  read_whole n xs e = ap (read_exact n) (sym (append-nil xs)) ∙ read_front n xs [] e

  read_four :
      (out sealed : List ℕ)
      → drop 4 out ≡ sealed
      → 0 < length sealed
      → read_exact 4 out ≡ ok (take 4 out, sealed)
  unfolding read_exact
  read_four out sealed e some_bytes = rw (enough, e)
    where
      enough : ltb (length out) 4 ≡ false
      enough = ground (arith, length-drop 4 out, ap length e)

  greeted :
      (signature sealed framed_hello out : List ℕ)
      → drop 4 framed_hello ≡ sealed
      → parse_received_header initial_sender (take 4 framed_hello) ≡ (
        record { key = datum_header_xor_feedback initial_sending_header_key },
        ok (hello_header (length sealed)),
      )
      → 0 < length sealed
      → length sealed ≤ 1_048_576
      → c.box_seal_open sealed pool.long_term_x25519_pub pool.long_term_x25519_sec
        ≡ ok (plaintext signature)
      → answer_plaintext c pool (plaintext signature) ≡ ok out
      → handle_connection c pool framed_hello ≡ ok out
  unfolding handle_connection hello_header
  greeted signature sealed framed_hello out behind parsed some_bytes short opens answers = rw (
    read_four framed_hello sealed behind some_bytes,
    parsed,
    allowed,
    read_whole (length sealed) sealed refl,
    opens,
    answers,
  )
    where
      allowed : ((length sealed == 0) || ltb 1_048_576 (length sealed)) ≡ false
      allowed = ground arith

  echoed : echo_differs keys response ≡ false
  unfolding echo_differs
  echoed = rw (
    first_key keys.long_term_ed25519_pub keys.long_term_x25519_pub keys.session_ed25519_pub
        keys.session_x25519_pub behind_keys sized.long_term_ed25519 sized.long_term_x25519
        sized.session_ed25519 sized.session_x25519,
    second_key keys.long_term_ed25519_pub keys.long_term_x25519_pub keys.session_ed25519_pub
        keys.session_x25519_pub behind_keys sized.long_term_ed25519 sized.long_term_x25519
        sized.session_ed25519 sized.session_x25519,
    third_key keys.long_term_ed25519_pub keys.long_term_x25519_pub keys.session_ed25519_pub
        keys.session_x25519_pub behind_keys sized.long_term_ed25519 sized.long_term_x25519
        sized.session_ed25519 sized.session_x25519,
    fourth_key keys.long_term_ed25519_pub keys.long_term_x25519_pub keys.session_ed25519_pub
        keys.session_x25519_pub behind_keys sized.long_term_ed25519 sized.long_term_x25519
        sized.session_ed25519 sized.session_x25519,
    same_bytes_self keys.long_term_ed25519_pub,
    same_bytes_self keys.long_term_x25519_pub,
    same_bytes_self keys.session_ed25519_pub,
    same_bytes_self keys.session_x25519_pub,
  )
    where
      behind_keys : List ℕ
      behind_keys = pool.session_ed25519_pub ++ (pool.session_x25519_pub ++ (pool.motd ++ (0 ∷ [])))

  drop-response :
      drop 128 response
      ≡ pool.session_ed25519_pub ++ (pool.session_x25519_pub ++ (pool.motd ++ (0 ∷ [])))
  drop-response =
      drop-keyed keys.long_term_ed25519_pub keys.long_term_x25519_pub keys.session_ed25519_pub
        keys.session_x25519_pub
        (pool.session_ed25519_pub ++ (pool.session_x25519_pub ++ (pool.motd ++ (0 ∷ []))))
        sized.long_term_ed25519 sized.long_term_x25519 sized.session_ed25519 sized.session_x25519

  drop_both : drop 160 response ≡ pool.session_x25519_pub ++ (pool.motd ++ (0 ∷ []))
  drop_both =
      drop_add 128 32 response
      ∙ ap (drop 32) drop-response
      ∙ drop_front 32 pool.session_ed25519_pub _ sized.pool_ed25519

  pool_ed25519_part : slice response 128 32 ≡ pool.session_ed25519_pub
  pool_ed25519_part =
      ap (take 32) drop-response ∙ take_front 32 pool.session_ed25519_pub _ sized.pool_ed25519

  pool_x25519_part : slice response 160 32 ≡ pool.session_x25519_pub
  pool_x25519_part =
      ap (take 32) drop_both ∙ take_front 32 pool.session_x25519_pub _ sized.pool_x25519

  motd_part : until_nul (drop 192 response) ≡ pool.motd
  motd_part =
      ap until_nul (
        drop_add 160 32 response
        ∙ ap (drop 32) drop_both
        ∙ drop_front 32 pool.session_x25519_pub _ sized.pool_x25519)
      ∙ until_nul-text pool.motd hello.motd_plain

  module _ (precomp : List ℕ)
      (agreed : c.box_beforenm pool.session_x25519_pub keys.session_x25519_sec ≡ ok precomp) where
    -- The connection that the greeting is to give: the sending chain at its start, the receiving one
    -- past the header of the response.
    abbrev pub greeted_connection : Established
    greeted_connection = record {
      connected = record {
        sender_obf = for_sender nk;
        receiver_obf = record {
          key = datum_header_xor_feedback (datum_header_xor_feedback (complement nk));
        };
        precomp_key = precomp;
        sender_nonce = (derive_session_nonces nk keys.session_ed25519_pub).0;
        receiver_nonce = (derive_session_nonces nk keys.session_ed25519_pub).1;
      };
      pool_session_ed25519 = pool.session_ed25519_pub;
      pool_session_x25519 = pool.session_x25519_pub;
      motd = pool.motd;
    }

    response_read :
        (ct : List ℕ) (e : length ct ≡ length response + 48)
        → c.box_seal_open ct keys.session_x25519_pub keys.session_x25519_sec ≡ ok response
        → read_response c keys nk (
            wire_header
              (response_header (length ct))
              (header-IsValid ct e)
              response_key
              response_key-IsWord
            ++ ct)
          ≡ ok (greeted_connection, [])
    unfolding read_response parse_received_header for_receiver decrypt response_key response_header
        from_bits
    response_read ct e opens = rw (
      read_front 4
          (wire_header (response_header (length ct)) (header-IsValid ct e) response_key
            response_key-IsWord)
          ct
          (length-wire_header (response_header (length ct)) (header-IsValid ct e) response_key
            response_key-IsWord),
      unpack-wire_header (response_header (length ct)) (header-IsValid ct e) response_key
          response_key-IsWord,
      small,
      large,
      read_whole (length ct) ct refl,
      opens,
      enough,
      echoed,
      pool_x25519_part,
      agreed,
      pool_ed25519_part,
      motd_part,
    )
      where
        small : ltb (4 * 1024 * 1024) (length ct) ≡ false
        small = ground (arith, e, length-response, hello.motd_short)

        large : ltb (length ct) 48 ≡ false
        large = ground (arith, e)

        enough : ltb (length response) 192 ≡ false
        enough = ground (arith, length-response)

    -- The client and the pool greet each other whatever their keys and texts: with texts without a NUL
    -- that fit the frames, a padding of 1 to 200 bytes, and boxes, signatures and a key agreement that
    -- do what they promise, `connect` succeeds. It holds the pool's session keys and message of the day
    -- and the agreed key, its sending chain stands at the start of the chain of `nk`, its receiving
    -- chain behind the one header that it has read, its nonces are those of `nk` and its session key,
    -- and nothing of the pool's answer is left unread.
    pub connect-answer_bytes :
        connect c keys version client_id nk padding pool.long_term_x25519_pub (answer_bytes c pool)
        ≡ ok (greeted_connection, [])
    unfolding connect hello_bytes seal_hello answer_bytes
    connect-answer_bytes =
        let (signature, signs, long, verifies) =
          signer.signed (hello_fields keys version client_id nk padding) in
        let (sealed, seals, more, opens) = pool_box.boxed (plaintext signature) in
        let (ct, seals', more', opens') = session_box.boxed response in
        let some_bytes : 0 < length sealed = omega (arith, more) in
        let short : length sealed ≤ 1_048_576 =
          omega (arith, more, length-plaintext signature long, hello) in
        let (out, framed_is, behind, parsed) =
          parse_received_header-frame_for_hello sealed (omega (arith, short)) in
        rw
          (
            built signature signs,
            seals,
            framed_is,
            greeted signature sealed out _ behind parsed some_bytes short opens
                (answered signature long ct more' verifies seals'),
          )
          (response_read ct more' opens')
