-- ===== src/EthFrame/Regions.antt =====
-- Where the options and the payload of an IPv4 packet and the data of a UDP segment lie
-- (shoc/eth_frame.hpp): offsets from the start of the packet or the segment, and sizes, of type
-- `std::size_t`.
use shoc.Base.{ℕ, ◌+◌, ◌-◌, ◌*◌, ◌%◌, ◌^◌, ◌≤◌, ◌<◌, ◌≡◌, ◌⊎◌, arith}
use shoc.EthFrame.{be16toh}
use shoc.EthFrame.Ipv4.{Ipv4Packet, ihl, total_length}
use shoc.EthFrame.Udp.{UdpSegment, length}

-- The conversion of an `int` difference, which may be negative, to `std::size_t`.
abbrev pub to_size : ℕ → ℕ → ℕ
to_size a b = (2 ^ 64 + a - b) % 2 ^ 64

-- `options_base`: behind the fixed part of the header
abbrev pub options_base : Ipv4Packet → ℕ
options_base p = 20

unfoldable pub options_count : Ipv4Packet → ℕ
options_count p = to_size (ihl p) 5

-- `payload_base`: behind so many words of four bytes
unfoldable pub payload_base : Ipv4Packet → ℕ
unfolding options_count
payload_base p = (options_base p + options_count p * 4) % 2 ^ 64

unfoldable pub payload_length : Ipv4Packet → ℕ
payload_length p = to_size (total_length p) (ihl p * 4)

-- `udp_segment::data`: eight bytes behind the start, to the end by the length field
unfoldable pub data_length : UdpSegment → ℕ
data_length s = to_size (length s) 8

be16toh_bound : (x : ℕ) → be16toh x < 2 ^ 16
be16toh_bound x = omega arith

-- The options and the payload follow the fixed header and end where the packet ends.
pub record Tiles (p : Ipv4Packet) : Type 0 where
  pub options_end : options_base p + options_count p * 4 ≡ payload_base p
  pub header_size : payload_base p ≡ ihl p * 4
  pub payload_end : payload_base p + payload_length p ≡ total_length p

-- One of the sizes is the huge number that a negative difference is converted to.
abbrev pub Overflows : Ipv4Packet → Type 0
Overflows p = (2 ^ 64 ≤ options_count p + 5) ⊎ (2 ^ 64 ≤ payload_length p + 2 ^ 6)

-- A UDP segment whose length field fits the payload of its packet, and is at least the length of its
-- header, has its data within the packet.
pub data_within :
    (p : Ipv4Packet) (s : UdpSegment)
    → Tiles p
    → 8 ≤ length s
    → length s ≤ payload_length p
    → payload_base p + 8 + data_length s ≤ total_length p
unfolding data_length
data_within p s t h l = omega (arith, t.payload_end, be16toh_bound s.raw_length)
