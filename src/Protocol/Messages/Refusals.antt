-- ===== src/Protocol/Messages/Refusals.antt =====
-- What the decoders refuse, and with which error.
use datum_rs.Common.{ℕ, ◌+◌, ◌≤◌, ◌≡◌, arith, List, length, drop, ok, length-take, length-drop}
use datum_rs.Protocol.Messages.{CoinbaserResponse, decode_coinbaser_response, word_at}

-- A coinbaser response that is decoded has a blob of 1 to 32767 bytes, taken whole from the body.
pub decode_coinbaser_response_bounds :
    (body : List ℕ) (r : CoinbaserResponse)
    → decode_coinbaser_response body ≡ ok r
    → (1 ≤ length r.v2_blob)
      × (length r.v2_blob ≤ 32767)
      × (length r.v2_blob + 12 ≤ length body)
      × (length r.v2_blob ≡ word_at body 8 4)
unfolding decode_coinbaser_response
decode_coinbaser_response_bounds body r e =
    ground (arith, length-take (word_at body 8 4) (drop 12 body), length-drop 12 body)
