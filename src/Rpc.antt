-- ===== src/Rpc.antt =====
-- crates/datum-rpc/src/lib.rs: the JSON-RPC client of bitcoind, and the BlockSubmitter of
-- crates/datum-submitblock/src/lib.rs that sends blocks with it. The HTTP client, serde_json and the file
-- system are parameters: what they answer may depend on all requests that were sent before.
pub mod Attempts
use datum_rs.Common.{
  ℕ, ◌+◌, ◌%◌, ◌^◌, Bool, true, false, List, [], ◌∷◌, ◌++◌, length, ◌==◌, if◌then◌else◌, Result, ok,
  err, Option, some, none,
}

pub data Auth : Type 0 where
  cookie : (path : List ℕ) → Auth
  user_pass : (user pass : List ℕ) → Auth

-- A code is a signed number; `code` holds it as serde gives it.
pub data RpcError : Type 0 where
  http : ℕ → RpcError
  cookie_read cookie_empty : (path : List ℕ) → RpcError
  remote : (code message : List ℕ) → RpcError
  malformed : (body : List ℕ) → RpcError
  deserialize : RpcError
  auth_failed : RpcError

-- A request as it is posted, the oldest last: user, password and body.
pub record HttpRequest : Type 0 where
  pub user : List ℕ
  pub pass : List ℕ
  pub body : List ℕ

-- serde_json, as far as the client uses it. `remove` gives a member of an object, none of another value
-- or where there is no such member; `remote_error` reads code and message; `array_of` is an array of one
-- string.
pub record Serde : Type 1 where
  pub Value : Type 0
  pub is_object : Value → Bool
  pub is_null : Value → Bool
  pub remove : Value → List ℕ → Option Value
  pub remote_error : Value → Option (List ℕ × List ℕ)
  pub as_string : Value → Option (List ℕ)
  pub to_string : Value → List ℕ
  pub array_of : List ℕ → Value
  pub request_body : (id : ℕ) (method : List ℕ) (params : Value) → List ℕ

abbrev pub error_key : List ℕ
error_key = 101 ∷ 114 ∷ 114 ∷ 111 ∷ 114 ∷ []

abbrev pub result_key : List ℕ
result_key = 114 ∷ 101 ∷ 115 ∷ 117 ∷ 108 ∷ 116 ∷ []

abbrev pub minus_one : List ℕ
minus_one = 45 ∷ 49 ∷ []

abbrev pub submitblock_method : List ℕ
submitblock_method = 115 ∷ 117 ∷ 98 ∷ 109 ∷ 105 ∷ 116 ∷ 98 ∷ 108 ∷ 111 ∷ 99 ∷ 107 ∷ []

abbrev pub preciousblock_method : List ℕ
preciousblock_method = 112 ∷ 114 ∷ 101 ∷ 99 ∷ 105 ∷ 111 ∷ 117 ∷ 115 ∷ 98 ∷ 108 ∷ 111 ∷ 99 ∷ 107 ∷ []

module _ (serde : Serde) where
  abbrev pub remote_or : Option (List ℕ × List ℕ) → Result RpcError serde.Value
  remote_or none = err deserialize
  remote_or (some (code, message)) = err (remote code message)

  abbrev pub result_or : List ℕ → Option serde.Value → Result RpcError serde.Value
  result_or body none = err (malformed body)
  result_or body (some v) = ok v

  abbrev pub response_of : List ℕ → serde.Value → Option serde.Value → Result RpcError serde.Value
  response_of body value none = result_or body (serde.remove value result_key)
  response_of body value (some e) =
      if serde.is_null e
      then result_or body (serde.remove value result_key)
      else remote_or (serde.remote_error e)

  -- An error that is there and not null wins over a result.
  unfoldable pub parse_rpc_response : serde.Value → Result RpcError serde.Value
  parse_rpc_response value =
      if serde.is_object value
      then response_of (serde.to_string value) value (serde.remove value error_key)
      else err (malformed (serde.to_string value))

-- `find(':')`: what stands before the first colon and behind it.
unfoldable pub split_userpass : List ℕ → List ℕ × List ℕ
split_userpass [] = ([], [])
split_userpass (b ∷ bs) =
    let (user, pass) = split_userpass bs in if b == 58 then ([], bs) else (b ∷ user, pass)

pub record Client : Type 0 where
  pub auth : Auth
  pub cached_userpass : Option (List ℕ)
  pub next_id : ℕ
  pub sent : List HttpRequest

-- The world around the client: the first line of the cookie file, trimmed, none where it cannot be
-- read; the answer to a request, none for a 401.
pub record World (serde : Serde) : Type 0 where
  pub cookie_line : List HttpRequest → List ℕ → Option (List ℕ)
  pub answer : List HttpRequest → HttpRequest → Result RpcError (Option serde.Value)

module _ (serde : Serde) (world : World serde) where
  abbrev pub line_of : List ℕ → Option (List ℕ) → Result RpcError (List ℕ)
  line_of path none = err (cookie_read path)
  line_of path (some []) = err (cookie_empty path)
  line_of path (some (b ∷ bs)) = ok (b ∷ bs)

  unfoldable pub resolve_auth : List HttpRequest → Auth → Result RpcError (List ℕ)
  resolve_auth sent (cookie path) = line_of path (world.cookie_line sent path)
  resolve_auth sent (user_pass user pass) = ok (user ++ (58 ∷ pass))

  abbrev pub cache : Client → Result RpcError (List ℕ) → Result RpcError (List ℕ) × Client
  cache c (err e) = (err e, c)
  cache c (ok up) = (ok up, record c { cached_userpass = some up })

  abbrev pub userpass_from : Client → Option (List ℕ) → Result RpcError (List ℕ) × Client
  userpass_from c (some cached) = (ok cached, c)
  userpass_from c none = cache c (resolve_auth c.sent c.auth)

  unfoldable pub userpass : Client → Result RpcError (List ℕ) × Client
  unfolding resolve_auth
  userpass c = userpass_from c c.cached_userpass

  abbrev pub request_for : List ℕ → List ℕ → HttpRequest
  request_for up body = record {
    user = (split_userpass up).0;
    pass = (split_userpass up).1;
    body = body;
  }

  unfoldable pub http_call :
      List ℕ → List ℕ → Client → Result RpcError (Option serde.Value) × Client
  http_call up body c =
      let req = request_for up body in (world.answer c.sent req, record c { sent = req ∷ c.sent })

  abbrev pub second_answer :
      Result RpcError (Option serde.Value) × Client → Result RpcError serde.Value × Client
  second_answer (err e, c) = (err e, c)
  second_answer (ok none, c) = (err auth_failed, c)
  second_answer (ok (some v), c) = (parse_rpc_response serde v, c)

  abbrev pub ask_again :
      List ℕ → Result RpcError (List ℕ) × Client → Result RpcError serde.Value × Client
  ask_again body (err e, c) = (err e, c)
  ask_again body (ok up, c) = second_answer (http_call up body c)

  -- A cookie is read again.
  abbrev pub retry : List ℕ → Auth → Client → Result RpcError serde.Value × Client
  retry body (user_pass user pass) c = (err auth_failed, c)
  retry body (cookie path) c = ask_again body (userpass (record c { cached_userpass = none }))

  abbrev pub first_answer :
      List ℕ → Result RpcError (Option serde.Value) × Client → Result RpcError serde.Value × Client
  first_answer body (err e, c) = (err e, c)
  first_answer body (ok (some v), c) = (parse_rpc_response serde v, c)
  first_answer body (ok none, c) = retry body c.auth c

  abbrev pub counted_up : Client → Client
  counted_up c = record c { next_id = (c.next_id + 1) % 2 ^ 64 }

  abbrev pub ask :
      List ℕ
      → serde.Value
      → Result RpcError (List ℕ) × Client
      → Result RpcError serde.Value × Client
  ask method params (err e, c) = (err e, c)
  ask method params (ok up, c) =
      let body = serde.request_body c.next_id method params in
      first_answer body (http_call up body (counted_up c))

  -- One call, with no other call of the client between its steps, which share the cached credentials: the
  -- result, and the client afterwards. `call` with the type Value gives it as it is.
  unfoldable pub call_value : List ℕ → serde.Value → Client → Result RpcError serde.Value × Client
  unfolding userpass http_call
  call_value method params c = ask method params (userpass c)

  abbrev pub submit_answer : serde.Value → Option (List ℕ) → Result RpcError (Unit {0})
  submit_answer v none = err (remote minus_one (serde.to_string v))
  submit_answer v (some []) = ok tt
  submit_answer v (some (b ∷ bs)) = err (remote minus_one (b ∷ bs))

  -- null and the empty string say that the block is taken.
  unfoldable pub submitblock_result : Result RpcError serde.Value → Result RpcError (Unit {0})
  submitblock_result (err e) = err e
  submitblock_result (ok v) = if serde.is_null v then ok tt else submit_answer v (serde.as_string v)

  unfoldable pub submitblock : List ℕ → Client → Result RpcError (Unit {0}) × Client
  unfolding submitblock_result
  submitblock hex_block c =
      let (answered, after) = call_value submitblock_method (serde.array_of hex_block) c in
      (submitblock_result answered, after)

  unfoldable pub preciousblock : List ℕ → Client → Client
  preciousblock blockhash_hex c =
      (call_value preciousblock_method (serde.array_of blockhash_hex) c).1

-- A node that blocks are submitted to.
pub record Node (serde : Serde) : Type 0 where
  pub world : World serde
  pub client : Client

pub data SubmitError : Type 0 where
  primary : RpcError → SubmitError

module _ (serde : Serde) where
  abbrev pub submit_to : List ℕ → Node serde → Node serde
  submit_to block_hex n = record n { client = (submitblock serde n.world block_hex n.client).1 }

  abbrev pub submit_to_all : List ℕ → List (Node serde) → List (Node serde)
  submit_to_all block_hex [] = []
  submit_to_all block_hex (n ∷ ns) = submit_to block_hex n ∷ submit_to_all block_hex ns

  abbrev pub after_primary :
      List ℕ
      → List ℕ
      → Node serde
      → List (Node serde)
      → Result RpcError (Unit {0}) × Client
      → Result SubmitError (Unit {0}) × Node serde × List (Node serde)
  after_primary block_hex block_hash_hex main extras (err e, c) =
      (err (primary e), record main { client = c }, extras)
  after_primary block_hex block_hash_hex main extras (ok done, c) = (
    ok tt,
    record main { client = preciousblock serde main.world block_hash_hex c },
    submit_to_all block_hex extras,
  )

  -- BlockSubmitter::submit: the primary node decides; the extra nodes, each on its own, and the
  -- preciousblock call only follow.
  unfoldable pub submit :
      List ℕ
      → List ℕ
      → Node serde
      → List (Node serde)
      → Result SubmitError (Unit {0}) × Node serde × List (Node serde)
  unfolding submitblock preciousblock
  submit block_hex block_hash_hex main extras =
      after_primary block_hex block_hash_hex main extras
        (submitblock serde main.world block_hex main.client)
