-- ===== src/Protocol/Events/Dispatch.antt =====
-- The events that a mining frame of the pool becomes.
use datum_rs.Common.{ℕ, ◌≡◌, refl, List, ◌∷◌, ◌++◌, ok}
use datum_rs.Protocol.Opcodes.{from_bits}
use datum_rs.Protocol.Session.{channel_header}
use datum_rs.Protocol.Messages.{
  CoinbaserResponse, ClientConfig, encode_coinbaser_response, encode_client_config,
  client_config_opcode, coinbaser_response_opcode, job_validation_opcode,
}
use datum_rs.Protocol.Messages.RoundTrip.{
  CoinbaserResponseIsValid, decode-encode_coinbaser_response,
}
use datum_rs.Protocol.Messages.Config.{ConfigIsValid, decode-encode_client_config}
use datum_rs.Protocol.Events.{
  coinbaser_event, client_config_event, job_validation_request, decode_event,
}

-- A frame of the mining command 5 on the encrypted channel is dispatched by its first byte: behind
-- 0x99 an encoded client configuration is decoded whole, behind 0x11 an encoded coinbaser response,
-- and behind 0x50 the bytes of a job validation are passed on. A coinbaser response and a job
-- validation mean the same under the command 0x10.
pub decode_event_mining :
    (len : ℕ) (rest : List ℕ)
    → ((c : ClientConfig)
        → ConfigIsValid c
        → decode_event
            (channel_header len 5)
            (client_config_opcode ∷ (encode_client_config c ++ rest))
          ≡ ok (client_config_event c))
      × ((r : CoinbaserResponse)
          → CoinbaserResponseIsValid r
          → (decode_event
                (channel_header len 5)
                (coinbaser_response_opcode ∷ (encode_coinbaser_response r ++ rest))
              ≡ ok (coinbaser_event r))
            × (decode_event
                  (channel_header len 0x10)
                  (coinbaser_response_opcode ∷ (encode_coinbaser_response r ++ rest))
                ≡ ok (coinbaser_event r)))
      × (decode_event (channel_header len 5) (job_validation_opcode ∷ rest)
          ≡ ok (job_validation_request rest))
      × (decode_event (channel_header len 0x10) (job_validation_opcode ∷ rest)
          ≡ ok (job_validation_request rest))
unfolding decode_event channel_header from_bits
decode_event_mining len rest = (
  λ c v. rw (decode-encode_client_config c rest v),
  λ r v. (
    rw (decode-encode_coinbaser_response r rest v),
    rw (decode-encode_coinbaser_response r rest v),
  ),
  refl,
  refl,
)
