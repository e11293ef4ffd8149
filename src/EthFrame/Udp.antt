-- ===== src/EthFrame/Udp.antt =====
-- `udp_segment` (shoc/eth_frame.hpp, shoc/eth_frame.cpp): ports, length, and the checksums over
-- IPv4 and IPv6.
pub mod Verification
pub mod Receiver
use Prim.Native.Nat.{bit_and}
use shoc.Base.{ℕ, ◌+◌, ◌-◌, ◌*◌, ◌/◌, ◌%◌, ◌^◌, List, [], ◌∷◌, map}
use shoc.EthFrame.{be16toh, htobe16}
use shoc.EthFrame.Checksum.{take, add_words, fold_carry, complement}
use shoc.EthFrame.Ipv4.{Ipv4Packet, source_address, destination_address}
use shoc.EthFrame.Ipv6.{Ipv6Packet}

pub record UdpSegment : Type 0 where
  pub raw_source_port : ℕ
  pub raw_destination_port : ℕ
  pub raw_length : ℕ
  pub raw_checksum : ℕ
  -- the memory behind the header in 16-bit words: the data, and whatever comes after it
  pub memory : List ℕ

abbrev pub source_port : UdpSegment → ℕ
source_port s = be16toh s.raw_source_port

abbrev pub destination_port : UdpSegment → ℕ
destination_port s = be16toh s.raw_destination_port

abbrev pub length : UdpSegment → ℕ
length s = be16toh s.raw_length

abbrev pub checksum : UdpSegment → ℕ
checksum s = be16toh s.raw_checksum

abbrev pub set_source_port : ℕ → UdpSegment → UdpSegment
set_source_port value s = record s { raw_source_port = htobe16 value }

abbrev pub set_destination_port : ℕ → UdpSegment → UdpSegment
set_destination_port value s = record s { raw_destination_port = htobe16 value }

abbrev pub set_length : ℕ → UdpSegment → UdpSegment
set_length value s = record s { raw_length = htobe16 value }

abbrev pub set_checksum : ℕ → UdpSegment → UdpSegment
set_checksum value s = record s { raw_checksum = htobe16 value }

-- The memory from `&raw_source_port` on
abbrev pub words : UdpSegment → List ℕ
words s = s.raw_source_port ∷ s.raw_destination_port ∷ s.raw_length ∷ s.raw_checksum ∷ s.memory

-- `length() + 1 / 2` is `length()`.
abbrev pub range_len : UdpSegment → ℕ
range_len s = length s + 1 / 2

unfoldable pub calculate_checksum : ℕ → UdpSegment → ℕ
calculate_checksum pseudoheader_part s =
    let word_sum = add_words pseudoheader_part (take (range_len s) (words s)) in
    let without = (word_sum + 2 ^ 32 - s.raw_checksum) % 2 ^ 32 in
    be16toh (complement (fold_carry (fold_carry without)))

abbrev pub pseudoheader_sum : Ipv4Packet → UdpSegment → ℕ
pseudoheader_sum wrapper s =
    let source_ip = source_address wrapper in
    let dest_ip = destination_address wrapper in
    (17
      + source_ip / 2 ^ 16
      + bit_and source_ip 0xffff
      + dest_ip / 2 ^ 16
      + bit_and dest_ip 0xffff
      + length s)
    % 2 ^ 32

abbrev pub pseudoheader_part : Ipv4Packet → UdpSegment → ℕ
pseudoheader_part wrapper s = htobe16 (fold_carry (pseudoheader_sum wrapper s))

unfoldable pub calculate_checksum_ipv4 : Ipv4Packet → UdpSegment → ℕ
unfolding calculate_checksum
calculate_checksum_ipv4 wrapper s = calculate_checksum (pseudoheader_part wrapper s) s

unfoldable pub update_checksum_ipv4 : Ipv4Packet → UdpSegment → UdpSegment
unfolding calculate_checksum_ipv4
update_checksum_ipv4 wrapper s = record s {
  raw_checksum = htobe16 (calculate_checksum_ipv4 wrapper s);
}

-- The addresses are 16 words from `raw_source_address` on.
abbrev pub pseudoheader_sum_ipv6 : Ipv6Packet → UdpSegment → ℕ
pseudoheader_sum_ipv6 wrapper s =
    add_words (htobe16 17 + s.raw_length) (map be16toh wrapper.raw_addresses)

abbrev pub pseudoheader_part_ipv6 : Ipv6Packet → UdpSegment → ℕ
pseudoheader_part_ipv6 wrapper s = fold_carry (pseudoheader_sum_ipv6 wrapper s) % 2 ^ 16

unfoldable pub calculate_checksum_ipv6 : Ipv6Packet → UdpSegment → ℕ
unfolding calculate_checksum
calculate_checksum_ipv6 wrapper s = calculate_checksum (pseudoheader_part_ipv6 wrapper s) s

unfoldable pub update_checksum_ipv6 : Ipv6Packet → UdpSegment → UdpSegment
unfolding calculate_checksum_ipv6
update_checksum_ipv6 wrapper s = record s {
  raw_checksum = htobe16 (calculate_checksum_ipv6 wrapper s);
}
