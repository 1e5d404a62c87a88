-- ===== src/Rpc/Attempts.antt =====
-- How often the client of crates/datum-rpc/src/lib.rs asks, and with which credentials.
use datum_rs.Common.{ℕ, ◌≡◌, List, ◌∷◌, Result, ok, err, some, none, ◌⊎◌}
use datum_rs.Rpc.{
  cookie, user_pass, RpcError, auth_failed, HttpRequest, Serde, parse_rpc_response, Client, World,
  line_of, resolve_auth, request_for,
}

module _ (serde : Serde) (world : World serde) where
  abbrev pub Answered : Type 0
  Answered = Result RpcError serde.Value × Client

  -- The credentials of a call are the cached ones, or else those of the configuration.
  abbrev pub Credentials : Client → Result RpcError (List ℕ) → Type 0
  Credentials c line =
      ((up : List ℕ) × (c.cached_userpass ≡ some up) × (line ≡ ok up))
      ⊎ ((c.cached_userpass ≡ none) × (resolve_auth serde world c.sent c.auth ≡ line))

  -- A request with these credentials and this body, which is the newest, has had an answer other than a
  -- 401, and the result is its error, or what its value parses to.
  abbrev pub Settles : List HttpRequest → List ℕ → List ℕ → Answered → Type 0
  Settles before body up (r, c) =
      (c.sent ≡ request_for serde world up body ∷ before)
      × (c.cached_userpass ≡ some up)
      × (((e : RpcError) × (world.answer before (request_for serde world up body) ≡ err e)
            × (r ≡ err e))
          ⊎ ((value : serde.Value) × (world.answer before (request_for serde world up body)
                ≡ ok (some value))
              × (r ≡ parse_rpc_response serde value)))

  -- It has had a 401, and the call gives up.
  abbrev pub GivesUp : List HttpRequest → List ℕ → List ℕ → Answered → Type 0
  GivesUp before body up (r, c) =
      (c.sent ≡ request_for serde world up body ∷ before)
      × (c.cached_userpass ≡ some up)
      × (world.answer before (request_for serde world up body) ≡ ok none)
      × (r ≡ err auth_failed)

  -- The first request has had a 401 with credentials of a cookie file, which is read again: what cannot
  -- be read is the result, and what is read goes into the second and last request, with the same body.
  abbrev pub Rereads : Client → List ℕ → List ℕ → Answered → Type 0
  Rereads c body up (r, end) =
      (path : List ℕ) × (c.auth ≡ cookie path)
      × (world.answer c.sent (request_for serde world up body) ≡ ok none)
      × (((e : RpcError) × (line_of serde world path
                (world.cookie_line (request_for serde world up body ∷ c.sent) path)
              ≡ err e)
            × (end.sent ≡ request_for serde world up body ∷ c.sent)
            × (end.cached_userpass ≡ none)
            × (r ≡ err e))
          ⊎ ((second : List ℕ) × (line_of serde world path
                  (world.cookie_line (request_for serde world up body ∷ c.sent) path)
                ≡ ok second)
              × (Settles (request_for serde world up body ∷ c.sent) body second (r, end)
                  ⊎ GivesUp (request_for serde world up body ∷ c.sent) body second (r, end))))

  -- All that a call can come to.
  abbrev pub Requests : Client → List ℕ → Answered → Type 0
  Requests c body (r, end) =
      ((e : RpcError) × Credentials c (err e) × (end.sent ≡ c.sent) × (r ≡ err e))
      ⊎ ((up : List ℕ) × Credentials c (ok up)
          × (Settles c.sent body up (r, end)
              ⊎ (((user pass : List ℕ) × (c.auth ≡ user_pass user pass)
                    × GivesUp c.sent body up (r, end))
                  ⊎ Rereads c body up (r, end))))

  abbrev sent_with : List ℕ → List ℕ → Client → Client
  sent_with up body c = record c { sent = request_for serde world up body ∷ c.sent }

  -- What a call has come to once its first request is answered, for a client that has cached `up`.
  Asked : Client → List ℕ → List ℕ → Answered → Type 0
  Asked c body up (r, end) =
      Settles c.sent body up (r, end)
      ⊎ (((user pass : List ℕ) × (c.auth ≡ user_pass user pass) × GivesUp c.sent body up (r, end))
          ⊎ Rereads c body up (r, end))
