-- ===== src/Sv2/Channels/Cases.antt =====
-- The ways through a request to open a channel: crates/datum-stratum-sv2/src/channel_manager.rs.
use datum_rs.Common.{
  ℕ, Bool, true, false, not, List, [], ◌∷◌, length, ◌==◌, if◌then◌else◌, Option, some, none, Result,
}
use datum_rs.Sv2.Channels.{
  Services, OpenError, OpenCode, invalid_user_identity, invalid_nominal_hashrate,
  max_target_out_of_range, MiningOut, open_channel_error, OpenRequest, ChannelManager,
}
use datum_rs.Sv2.Channels.Utf8.{str_from_str0255}
use datum_rs.Sv2.Channels.Open.{answer, refuse, checked}

module _ (s : Services) where
  -- Either one error, or what the request itself comes to.
  pub checked-cases :
      (inner : OpenRequest s
        → List ℕ
        → ChannelManager s
        → Result OpenError (List MiningOut) × ChannelManager s)
      (req : OpenRequest s) (m : ChannelManager s) (Q : List MiningOut × ChannelManager s → Type 0)
      → ((code : OpenCode) → Q (open_channel_error req.request_id code ∷ [], m))
      → ((user_identity : List ℕ) → Q (answer s req.request_id (inner req user_identity m)))
      → Q (checked s inner req m)
  checked-cases inner req m Q refused passed =
      go (length req.user_identity == 0) (str_from_str0255 req.user_identity)
        (s.accepts_hash_rate req.nominal_hash_rate) (length req.max_target == 32)
    where
      go :
          (empty : Bool) (user : Option (List ℕ)) (fast thirty_two : Bool)
          → Q (
              if empty then refuse s req.request_id invalid_user_identity m else elim user [
                | none ↦ refuse s req.request_id invalid_user_identity m
                | some user_identity ↦
                    if not fast
                    then refuse s req.request_id invalid_nominal_hashrate m
                    else if not thirty_two
                    then refuse s req.request_id max_target_out_of_range m
                    else answer s req.request_id (inner req user_identity m)
              ])
      go true user fast thirty_two = refused invalid_user_identity
      go false none fast thirty_two = refused invalid_user_identity
      go false (some u) false thirty_two = refused invalid_nominal_hashrate
      go false (some u) true false = refused max_target_out_of_range
      go false (some u) true true = passed u
