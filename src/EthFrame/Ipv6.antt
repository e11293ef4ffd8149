-- ===== src/EthFrame/Ipv6.antt =====
-- `ipv6_packet` (shoc/eth_frame.hpp): the fields of the header.
pub mod Fields
use Prim.Native.Nat.{bit_and, bit_or}
use shoc.Base.{ℕ, ◌*◌, ◌/◌, ◌%◌, ◌^◌, List}
use shoc.EthFrame.{be16toh, htobe16, be32toh, htobe32}

pub record Ipv6Packet : Type 0 where
  pub raw_version_traffic_class_flow_label : ℕ
  pub raw_payload_length : ℕ
  pub raw_next_header : ℕ
  pub raw_hop_limit : ℕ
  -- `raw_source_address` and `raw_destination_address`, as 16 words of 16 bits
  pub raw_addresses : List ℕ

abbrev pub vtcfl : Ipv6Packet → ℕ
vtcfl p = be32toh p.raw_version_traffic_class_flow_label

-- `static_cast<std::uint8_t>` of what is shifted
abbrev pub version : Ipv6Packet → ℕ
version p = vtcfl p / 2 ^ 28 % 2 ^ 8

abbrev pub traffic_class : Ipv6Packet → ℕ
traffic_class p = bit_and (vtcfl p / 2 ^ 20) 0xff % 2 ^ 8

abbrev pub flow_label : Ipv6Packet → ℕ
flow_label p = bit_and (vtcfl p) 0x000f_ffff

abbrev pub payload_length : Ipv6Packet → ℕ
payload_length p = be16toh p.raw_payload_length

abbrev pub next_header : Ipv6Packet → ℕ
next_header p = p.raw_next_header

abbrev pub hop_limit : Ipv6Packet → ℕ
hop_limit p = p.raw_hop_limit

-- Shifts are in 32 bits.
abbrev pub set_version : ℕ → Ipv6Packet → Ipv6Packet
set_version value p = record p {
  raw_version_traffic_class_flow_label =
      htobe32 (bit_or (bit_and (vtcfl p) 0x0fff_ffff) (value * 2 ^ 28 % 2 ^ 32));
}

abbrev pub set_traffic_class : ℕ → Ipv6Packet → Ipv6Packet
set_traffic_class value p = record p {
  raw_version_traffic_class_flow_label =
      htobe32 (bit_or (bit_and (vtcfl p) 0xf00f_ffff) (value * 2 ^ 20 % 2 ^ 32));
}

abbrev pub set_flow_label : ℕ → Ipv6Packet → Ipv6Packet
set_flow_label value p = record p {
  raw_version_traffic_class_flow_label = htobe32 (bit_or (bit_and (vtcfl p) 0xfff0_0000) value);
}

abbrev pub set_payload_length : ℕ → Ipv6Packet → Ipv6Packet
set_payload_length value p = record p { raw_payload_length = htobe16 value }

abbrev pub set_next_header : ℕ → Ipv6Packet → Ipv6Packet
set_next_header value p = record p { raw_next_header = value }

abbrev pub set_hop_limit : ℕ → Ipv6Packet → Ipv6Packet
set_hop_limit value p = record p { raw_hop_limit = value }
