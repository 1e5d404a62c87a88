-- ===== src/Protocol/Opcodes.antt =====
-- crates/datum-protocol/src/opcodes.rs: the names of the 5-bit `proto_cmd` field.
pub mod Bits
use datum_rs.Common.{ℕ, bit_and, ◌==◌, if◌then◌else◌}

pub data ProtoCmd : Type 0 where
  ping pong hello coinbaser coinbaser_ack share share_ack : ProtoCmd
  job_validation client_config block_notify : ProtoCmd
  unknown : ℕ → ProtoCmd

unfoldable pub byte_value : ProtoCmd → ℕ
byte_value ping = 0x01
byte_value pong = 0x02
byte_value hello = 0x03
byte_value coinbaser = 0x10
byte_value coinbaser_ack = 0x11
byte_value share = 0x27
byte_value share_ack = 0x8f
byte_value job_validation = 0x50
byte_value client_config = 0x99
byte_value block_notify = 0xf9
byte_value (unknown b) = b

-- The `match` of `from_bits`, on the five bits that are left of the byte.
unfoldable pub from_low_bits : ℕ → ProtoCmd
from_low_bits x =
    if x == 0x01
    then ping
    else if x == 0x02
    then pong
    else if x == 0x03
    then hello
    else if x == 0x10
    then coinbaser
    else if x == 0x11
    then coinbaser_ack
    else if x == 0x07
    then share
    else if x == 0x0f
    then share_ack
    else if x == 0x19
    then client_config
    else unknown x

unfoldable pub from_bits : ℕ → ProtoCmd
unfolding from_low_bits
from_bits b = from_low_bits (bit_and b 0x1f)
