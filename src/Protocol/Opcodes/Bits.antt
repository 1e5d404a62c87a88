-- ===== src/Protocol/Opcodes/Bits.antt =====
-- What survives of a command in five bits.
use datum_rs.Common.{ℕ, ◌%◌, ◌<◌, ◌≡◌, refl, ap, bit_and, arith}
use datum_rs.Common.Bits.{bit_and_mask}
use datum_rs.Protocol.Opcodes.{
  ProtoCmd, ping, pong, hello, coinbaser, coinbaser_ack, share, share_ack, job_validation,
  client_config, block_notify, unknown, byte_value, from_low_bits, from_bits,
}

low_bits : (b : ℕ) → bit_and b 0x1f ≡ b % 32
low_bits b = bit_and_mask 5 b

from_low_bits_kept : (x : ℕ) → x < 32 → byte_value (from_low_bits x) % 32 ≡ x
unfolding from_low_bits byte_value
from_low_bits_kept x h = ground arith

-- For every byte: the command that `from_bits` names has that byte's five bits on the wire.
pub byte_value-from_bits : (b : ℕ) → bit_and (byte_value (from_bits b)) 0x1f ≡ bit_and b 0x1f
unfolding from_bits
byte_value-from_bits b =
    rw (low_bits b, low_bits (byte_value (from_low_bits (b % 32))))
      (from_low_bits_kept (b % 32) (omega arith))

-- The command that a receiver sees in place of the one that was sent.
abbrev pub seen : ProtoCmd → ProtoCmd
seen job_validation = coinbaser
seen block_notify = client_config
seen (unknown b) = from_bits b
seen c = c

-- Over the wire every named command comes back as itself, but for the two collisions: a job
-- validation is read as a coinbaser, and a block notification as a client configuration.
pub from_bits-byte_value : (c : ProtoCmd) → from_bits (bit_and (byte_value c) 0x1f) ≡ seen c
unfolding from_bits byte_value
from_bits-byte_value ping = refl
from_bits-byte_value pong = refl
from_bits-byte_value hello = refl
from_bits-byte_value coinbaser = refl
from_bits-byte_value coinbaser_ack = refl
from_bits-byte_value share = refl
from_bits-byte_value share_ack = refl
from_bits-byte_value job_validation = refl
from_bits-byte_value client_config = refl
from_bits-byte_value block_notify = refl
from_bits-byte_value (unknown b) = ap from_low_bits twice
  where
    twice : bit_and (bit_and b 0x1f) 0x1f ≡ bit_and b 0x1f
    twice = omega (arith, low_bits b, low_bits (bit_and b 0x1f))
