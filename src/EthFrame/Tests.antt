-- ===== src/EthFrame/Tests.antt =====
-- The frame of tests/group_eth_frame.cpp, and packets whose UDP checksum goes wrong.
use shoc.EthFrame.Regions.{options_count}
use shoc.Base.{◌-◌, ◌^◌, ◌*◌, ◌%◌, ◌≡◌, refl, arith, [], ◌∷◌}
use shoc.EthFrame.{htobe16, octets_to_ipv4_addr}
use shoc.EthFrame.Checksum.{take, drop, sum}
use shoc.EthFrame.Ipv4
use shoc.EthFrame.Ipv4.{Ipv4Packet, ihl, calculate_header_checksum, update_header_checksum}
use shoc.EthFrame.Ipv4.Fields
use shoc.EthFrame.Ipv4.Fields.{set-view}
use shoc.EthFrame.Ipv4.HeaderChecksum.{update_header_checksum-verifies}
use shoc.EthFrame.Ipv6.{Ipv6Packet}
use shoc.EthFrame.Ipv6
use shoc.EthFrame.Ipv6.Fields as Fields6
use shoc.EthFrame.Udp.{UdpSegment, calculate_checksum_ipv4, update_checksum_ipv4}
use shoc.EthFrame.Udp.Verification.{datagram, read_behind}
use shoc.EthFrame.Udp.Receiver.{receiver_sum, update_checksum_ipv4-loses_carry}

abbrev packet : Ipv4Packet
packet = record {
  raw_version_ihl = 0x45;
  raw_dscp_ecn = 0;
  raw_total_length = 0x2100;
  raw_identification = 0x3bde;
  raw_flags_fragment_offset = 0x0040;
  raw_ttl = 0x40;
  raw_protocol = 0x11;
  raw_header_checksum = 0x6412;
  raw_source_address = 0x0164a8c0;
  raw_destination_address = 0xda64a8c0;
  rest = [];
}

abbrev segment : UdpSegment
segment = record {
  raw_source_port = 0xe4ce;
  raw_destination_port = 0x3930;
  raw_length = 0x0d00;
  raw_checksum = 0x2816;
  memory = 0x3066 ∷ 0x3130 ∷ 0x000a ∷ 0 ∷ 0 ∷ 0 ∷ 0 ∷ 0 ∷ 0 ∷ [];
}

packet-IsPacket : Fields.IsPacket packet
packet-IsPacket = record {
  octets = (omega arith, omega arith, omega arith, omega arith);
  halves = (omega arith, omega arith, omega arith, omega arith);
  addresses = (omega arith, omega arith);
  behind = tt;
}

fields_of_packet :
    (Ipv4.flags packet ≡ 2)
    × (Ipv4.header_checksum packet ≡ 0x1264)
    × (Ipv4.destination_address packet ≡ octets_to_ipv4_addr 192 168 100 218)
fields_of_packet = (refl, refl, refl)

header_checksum_of_packet : calculate_header_checksum packet ≡ 0x1264
unfolding calculate_header_checksum
header_checksum_of_packet = refl

udp_checksum_of_segment : calculate_checksum_ipv4 packet segment ≡ 0x1628
unfolding calculate_checksum_ipv4
udp_checksum_of_segment = refl

set-view_example : Fields.view (Ipv4.set_flags 5 packet) ≡ record (Fields.view packet) { flags = 5 }
set-view_example = set-view Fields.Field.flags 5 packet packet-IsPacket (omega arith)

update_header_checksum-verifies_example :
    (calculate_header_checksum (update_header_checksum packet)
      ≡ Ipv4.header_checksum (update_header_checksum packet))
    × (sum (take (Ipv4.ihl packet * 2) (Ipv4.words (update_header_checksum packet))) % 65535 ≡ 0)
update_header_checksum-verifies_example =
    update_header_checksum-verifies packet packet-IsPacket (omega arith) (omega arith)

-- From 192.168.0.1 to 192.168.126.149, a datagram without data
abbrev carrying_packet : Ipv4Packet
carrying_packet = record packet {
  raw_source_address = 0x0100a8c0;
  raw_destination_address = 0x957ea8c0;
}

abbrev empty_segment : UdpSegment
empty_segment = record segment { raw_length = 0x0800; memory = 0 ∷ 0 ∷ 0 ∷ 0 ∷ [] }

update_checksum_ipv4-loses_carry_example :
    receiver_sum carrying_packet (update_checksum_ipv4 carrying_packet empty_segment) ≡ 1
update_checksum_ipv4-loses_carry_example =
    update_checksum_ipv4-loses_carry carrying_packet empty_segment
      (record {
        octets = packet-IsPacket.octets;
        halves = packet-IsPacket.halves;
        addresses = (omega arith, omega arith);
        behind = tt;
      })
      (record { halves = omega arith; has_header = omega arith; in_range = omega arith })
      (omega arith) refl

-- From fe80::1 to fe80::2
abbrev packet6 : Ipv6Packet
packet6 = record {
  raw_version_traffic_class_flow_label = 0x60;
  raw_payload_length = 0x0800;
  raw_next_header = 17;
  raw_hop_limit = 64;
  raw_addresses =
      0x80fe ∷ 0 ∷ 0 ∷ 0 ∷ 0 ∷ 0 ∷ 0 ∷ 0x0100 ∷ 0x80fe ∷ 0 ∷ 0 ∷ 0 ∷ 0 ∷ 0 ∷ 0 ∷ 0x0200 ∷ [];
}

-- A datagram of nine bytes ends in the byte 5, and the byte 7 is read behind it.
abbrev odd_segment : UdpSegment
odd_segment = record segment { raw_length = htobe16 9; memory = 0x0705 ∷ 0x0909 ∷ [] }

odd_datagram_is_padded : drop 4 (datagram odd_segment) ≡ 5 ∷ []
odd_datagram_is_padded = refl

odd_byte_is_behind : read_behind odd_segment ≡ 0x0700 ∷ 0x0909 ∷ []
odd_byte_is_behind = refl

-- A header of four words is too short for its fixed part.
abbrev short_header : Ipv4Packet
short_header = record {
  raw_version_ihl = 0x44;
  raw_dscp_ecn = 0;
  raw_total_length = htobe16 40;
  raw_identification = 0;
  raw_flags_fragment_offset = 0;
  raw_ttl = 64;
  raw_protocol = 17;
  raw_header_checksum = 0;
  raw_source_address = 0;
  raw_destination_address = 0;
  rest = [];
}

short_options : options_count short_header ≡ 2 ^ 64 - 1
unfolding options_count
short_options = refl
