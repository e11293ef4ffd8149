-- ===== src/EthFrame.antt =====
-- Ethernet frames, IP packets and UDP segments as views of raw memory (shoc/eth_frame.hpp,
-- shoc/eth_frame.cpp). A raw field is the number that a little-endian host loads from it.
pub mod Checksum
pub mod Ipv4
pub mod Ipv6
pub mod Udp
pub mod Regions
mod Tests
use Prim.Native.Nat.{bit_or}
use shoc.Base.{ℕ, ◌+◌, ◌*◌, ◌/◌, ◌%◌, ◌^◌, List}

-- `be16toh` and `htobe16`, whose argument is an uint16_t
abbrev pub be16toh : ℕ → ℕ
be16toh x = x % 256 * 256 + x / 256 % 256

abbrev pub htobe16 : ℕ → ℕ
htobe16 x = be16toh x

-- `be32toh` and `htobe32`
abbrev pub be32toh : ℕ → ℕ
be32toh x = x % 256 * 2 ^ 24 + x / 256 % 256 * 2 ^ 16 + x / 2 ^ 16 % 256 * 256 + x / 2 ^ 24 % 256

abbrev pub htobe32 : ℕ → ℕ
htobe32 x = be32toh x

-- Each octet is converted to 32 bits before it is shifted.
abbrev pub octets_to_ipv4_addr : ℕ → ℕ → ℕ → ℕ → ℕ
octets_to_ipv4_addr a b c d =
    bit_or (bit_or (bit_or (a * 2 ^ 24 % 2 ^ 32) (b * 2 ^ 16)) (c * 2 ^ 8)) d

-- `eth_frame`, less the payload
pub record Frame : Type 0 where
  pub raw_destination_mac : List ℕ
  pub raw_source_mac : List ℕ
  pub raw_ethertype : ℕ

abbrev pub ethertype : Frame → ℕ
ethertype f = be16toh f.raw_ethertype

abbrev pub set_ethertype : ℕ → Frame → Frame
set_ethertype value f = record f { raw_ethertype = htobe16 value }
