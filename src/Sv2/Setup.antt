-- ===== src/Sv2/Setup.antt =====
-- The answer to SetupConnection: crates/datum-stratum-sv2/src/setup_connection.rs. Reading the work
-- selection bit is third-party code, and a parameter.
use datum_rs.Common.{ℕ, Bool, if◌then◌else◌}

pub data Protocol : Type 0 where
  mining_protocol : Protocol
  job_declaration_protocol : Protocol
  template_distribution_protocol : Protocol

pub record SetupConnection : Type 0 where
  pub protocol : Protocol
  pub flags : ℕ

pub data SetupCode : Type 0 where
  unsupported_protocol : SetupCode
  unsupported_feature_flags : SetupCode

pub data SetupConnectionResponse : Type 0 where
  success : (used_version flags : ℕ) → SetupConnectionResponse
  error : (flags : ℕ) (error_code : SetupCode) → SetupConnectionResponse

abbrev pub flag_requires_work_selection : ℕ
flag_requires_work_selection = 2

abbrev answer_to : Protocol → Bool → SetupConnectionResponse
answer_to job_declaration_protocol work_selection = error 0 unsupported_protocol
answer_to template_distribution_protocol work_selection = error 0 unsupported_protocol
answer_to mining_protocol work_selection =
    if work_selection
    then error flag_requires_work_selection unsupported_feature_flags
    else success 2 0

unfoldable pub handle_setup_connection : (ℕ → Bool) → SetupConnection → SetupConnectionResponse
handle_setup_connection has_work_selection msg =
    answer_to msg.protocol (has_work_selection msg.flags)
