-- ===== src/Examples/Nodes.antt =====
-- crates/datum-rpc, crates/datum-dupes and crates/datum-api, at concrete inputs.
use datum_rs.Common.{
  ℕ, ◌+◌, ◌%◌, ◌≡◌, ◌↔◌, refl, arith, Bool, true, false, List, [], ◌∷◌, length, take, ◌==◌,
  if◌then◌else◌, Option, some, none, ok,
}
use datum_rs.Rpc.{Serde, World, Client, cookie, HttpRequest}
use datum_rs.Dupes.{ShareKey, LruCache, mem, without, IsLru, check_and_insert, check_all}
use datum_rs.Dupes.Window.{check_and_insert-twice}
use datum_rs.Api.Digest.{DigestAlgorithm, sha256, verify_digest_response}
use datum_rs.Api.Digest.Verify.{answer, verify_digest_response_iff}

-- Answers: null, a text, and an object with a result.
data Doc : Type 0 where
  null : Doc
  text : List ℕ → Doc
  result : Doc → Doc

abbrev is_object : Doc → Bool
is_object null = false
is_object (text s) = false
is_object (result d) = true

abbrev is_null : Doc → Bool
is_null null = true
is_null (text s) = false
is_null (result d) = false

-- The key of a result is told by its first letter.
abbrev member : Doc → List ℕ → Option Doc
member null key = none
member (text s) key = none
member (result d) [] = none
member (result d) (k ∷ key) = if k == 114 then some d else none

abbrev as_text : Doc → Option (List ℕ)
as_text null = none
as_text (text s) = some s
as_text (result d) = none

abbrev serde : Serde
serde = record {
  Value = Doc;
  is_object = is_object;
  is_null = is_null;
  remove = member;
  remote_error = λ d. none;
  as_string = as_text;
  to_string = λ d. [];
  array_of = text;
  request_body = λ id method params. id ∷ method;
}

-- The cookie has changed since it was read: the first request is refused.
abbrev answering : List HttpRequest → Option Doc
answering [] = none
answering (r ∷ rs) = some (result (text (7 ∷ [])))

abbrev world : World serde
world = record {
  cookie_line = λ sent path. some (117 ∷ 58 ∷ length sent ∷ []);
  answer = λ sent r. ok (answering sent);
}

abbrev client : Client
client = record { auth = cookie (99 ∷ []); cached_userpass = none; next_id = 1; sent = [] }

-- The keys, the most recent first, and the capacity.
abbrev Listed : Type 0
Listed = List ShareKey × ℕ

abbrev looked_up : ShareKey → Listed → Bool × Listed
looked_up key (keys, n) =
    (mem key keys, ((if mem key keys then key ∷ without key keys else keys), n))

abbrev put_first : ShareKey → Listed → Listed
put_first key (keys, n) = (take n (key ∷ without key keys), n)

abbrev listed : LruCache
listed = record { Cache = Listed; with_capacity = λ n. ([], n); get = looked_up; put = put_first }

listed-IsLru : IsLru listed
listed-IsLru = record {
  keys = λ c. c.0;
  capacity = λ c. c.1;
  new_keys = λ n. refl;
  new_capacity = λ n. refl;
  found = λ key c. refl;
  got_keys = λ key c. refl;
  got_capacity = λ key c. refl;
  put_keys = λ key c. refl;
  put_capacity = λ key c. refl;
}

abbrev numbered : ℕ → ShareKey
numbered n = record {
  channel_id = 1;
  sequence = n;
  ntime = 0;
  version = 0;
  extranonce = 0;
  nonce = n;
}

check_and_insert-twice_example :
    (check_and_insert listed (numbered 1) (
      check_all listed
        (numbered 2 ∷ numbered 3 ∷ [])
        (check_and_insert listed (numbered 1) ([], 3)).1)).0
    ≡ false
unfolding listed-IsLru
check_and_insert-twice_example =
    check_and_insert-twice listed listed-IsLru (numbered 1) (numbered 2 ∷ numbered 3 ∷ []) ([], 3)
      (omega arith)

-- A hash of one byte.
sum_of : List ℕ → ℕ
sum_of [] = 0
sum_of (b ∷ bs) = b + sum_of bs

abbrev summed : DigestAlgorithm → List ℕ → List ℕ
summed algo bytes = sum_of bytes % 256 ∷ []

verify_digest_response_iff_example :
    (verify_digest_response summed sha256
        (97 ∷ 98 ∷ [])
        (117 ∷ [])
        (114 ∷ [])
        []
        (71 ∷ [])
        (47 ∷ [])
        (1 ∷ [])
        (2 ∷ [])
        (3 ∷ [])
        (4 ∷ [])
      ≡ true)
    ↔ (answer summed sha256
          (117 ∷ [])
          (114 ∷ [])
          []
          (71 ∷ [])
          (47 ∷ [])
          (1 ∷ [])
          (2 ∷ [])
          (3 ∷ [])
          (4 ∷ [])
        ≡ (97 ∷ 98 ∷ []))
verify_digest_response_iff_example =
    verify_digest_response_iff summed (λ algo m. (omega arith, tt)) sha256 (97 ∷ 98 ∷ []) (117 ∷ [])
      (114 ∷ []) [] (71 ∷ []) (47 ∷ []) (1 ∷ []) (2 ∷ []) (3 ∷ []) (4 ∷ [])
      (omega arith, (omega arith, tt))
