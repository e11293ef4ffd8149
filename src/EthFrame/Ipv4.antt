-- ===== src/EthFrame/Ipv4.antt =====
-- `ipv4_packet` (shoc/eth_frame.hpp): the fields of the header, and its checksum.
pub mod Fields
pub mod HeaderChecksum
use Prim.Native.Nat.{bit_and, bit_or}
use shoc.Base.{ℕ, ◌+◌, ◌-◌, ◌*◌, ◌/◌, ◌%◌, ◌^◌, List, [], ◌∷◌, ◌++◌}
use shoc.EthFrame.{be16toh, htobe16, be32toh, htobe32}
use shoc.EthFrame.Checksum.{take, add_words, fold_carry, complement}

pub record Ipv4Packet : Type 0 where
  pub raw_version_ihl : ℕ
  pub raw_dscp_ecn : ℕ
  pub raw_total_length : ℕ
  pub raw_identification : ℕ
  pub raw_flags_fragment_offset : ℕ
  pub raw_ttl : ℕ
  pub raw_protocol : ℕ
  pub raw_header_checksum : ℕ
  pub raw_source_address : ℕ
  pub raw_destination_address : ℕ
  -- the words behind the fixed part: options and payload
  pub rest : List ℕ

abbrev pub version : Ipv4Packet → ℕ
version p = p.raw_version_ihl / 2 ^ 4

abbrev pub ihl : Ipv4Packet → ℕ
ihl p = bit_and p.raw_version_ihl 0x0f

abbrev pub dscp : Ipv4Packet → ℕ
dscp p = p.raw_dscp_ecn / 2 ^ 2

abbrev pub ecn : Ipv4Packet → ℕ
ecn p = bit_and p.raw_dscp_ecn 0x03

abbrev pub total_length : Ipv4Packet → ℕ
total_length p = be16toh p.raw_total_length

abbrev pub identification : Ipv4Packet → ℕ
identification p = be16toh p.raw_identification

abbrev pub flags : Ipv4Packet → ℕ
flags p = be16toh p.raw_flags_fragment_offset / 2 ^ 13

abbrev pub fragment_offset : Ipv4Packet → ℕ
fragment_offset p = bit_and (be16toh p.raw_flags_fragment_offset) 0x1fff

abbrev pub ttl : Ipv4Packet → ℕ
ttl p = p.raw_ttl

abbrev pub protocol : Ipv4Packet → ℕ
protocol p = p.raw_protocol

abbrev pub header_checksum : Ipv4Packet → ℕ
header_checksum p = be16toh p.raw_header_checksum

abbrev pub source_address : Ipv4Packet → ℕ
source_address p = be32toh p.raw_source_address

abbrev pub destination_address : Ipv4Packet → ℕ
destination_address p = be32toh p.raw_destination_address

-- The setters, with the implicit conversion of what they assign.
abbrev pub set_version : ℕ → Ipv4Packet → Ipv4Packet
set_version value p = record p { raw_version_ihl = bit_or (value * 2 ^ 4) (ihl p) % 2 ^ 8 }

abbrev pub set_ihl : ℕ → Ipv4Packet → Ipv4Packet
set_ihl value p = record p {
  raw_version_ihl = bit_or (bit_and p.raw_version_ihl 0xf0) value % 2 ^ 8;
}

abbrev pub set_dscp : ℕ → Ipv4Packet → Ipv4Packet
set_dscp value p = record p { raw_dscp_ecn = bit_or (value * 2 ^ 2) (ecn p) % 2 ^ 8 }

abbrev pub set_ecn : ℕ → Ipv4Packet → Ipv4Packet
set_ecn value p = record p { raw_dscp_ecn = bit_or (bit_and p.raw_dscp_ecn 0xfc) value % 2 ^ 8 }

abbrev pub set_total_length : ℕ → Ipv4Packet → Ipv4Packet
set_total_length value p = record p { raw_total_length = htobe16 value }

abbrev pub set_identification : ℕ → Ipv4Packet → Ipv4Packet
set_identification value p = record p { raw_identification = htobe16 value }

abbrev pub set_flags : ℕ → Ipv4Packet → Ipv4Packet
set_flags value p = record p {
  raw_flags_fragment_offset = htobe16 (bit_or (value * 2 ^ 13) (fragment_offset p));
}

abbrev pub set_fragment_offset : ℕ → Ipv4Packet → Ipv4Packet
set_fragment_offset value p = record p {
  raw_flags_fragment_offset = htobe16 (bit_or (flags p * 2 ^ 13) value);
}

abbrev pub set_ttl : ℕ → Ipv4Packet → Ipv4Packet
set_ttl value p = record p { raw_ttl = value }

abbrev pub set_protocol : ℕ → Ipv4Packet → Ipv4Packet
set_protocol value p = record p { raw_protocol = value }

abbrev pub set_header_checksum : ℕ → Ipv4Packet → Ipv4Packet
set_header_checksum value p = record p { raw_header_checksum = htobe16 value }

abbrev pub set_source_address : ℕ → Ipv4Packet → Ipv4Packet
set_source_address value p = record p { raw_source_address = htobe32 value }

abbrev pub set_destination_address : ℕ → Ipv4Packet → Ipv4Packet
set_destination_address value p = record p { raw_destination_address = htobe32 value }

-- The memory from `this` on, in 16-bit words.
abbrev pub words : Ipv4Packet → List ℕ
words p =
    (p.raw_version_ihl + p.raw_dscp_ecn * 2 ^ 8)
    ∷ p.raw_total_length
    ∷ p.raw_identification
    ∷ p.raw_flags_fragment_offset
    ∷ (p.raw_ttl + p.raw_protocol * 2 ^ 8)
    ∷ p.raw_header_checksum
    ∷ (p.raw_source_address % 2 ^ 16)
    ∷ (p.raw_source_address / 2 ^ 16)
    ∷ (p.raw_destination_address % 2 ^ 16)
    ∷ (p.raw_destination_address / 2 ^ 16)
    ∷ p.rest

-- `word_sum` starts at the negated checksum, so that adding that word takes it out.
unfoldable pub calculate_header_checksum : Ipv4Packet → ℕ
calculate_header_checksum p =
    let negated = (2 ^ 32 - p.raw_header_checksum) % 2 ^ 32 in
    be16toh (complement (fold_carry (fold_carry (add_words negated (take (ihl p * 2) (words p))))))

unfoldable pub update_header_checksum : Ipv4Packet → Ipv4Packet
unfolding calculate_header_checksum
update_header_checksum p = record p { raw_header_checksum = htobe16 (calculate_header_checksum p) }
