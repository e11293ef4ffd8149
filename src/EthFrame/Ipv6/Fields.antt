-- ===== src/EthFrame/Ipv6/Fields.antt =====
-- The fields of an IPv6 header: what the setters do to what the getters read.
use shoc.Base.{ℕ, ◌^◌, ◌<◌}
use shoc.EthFrame.Ipv6
use shoc.EthFrame.Ipv6.{Ipv6Packet}

-- The raw fields fit the types that the class declares.
pub record IsPacket (p : Ipv6Packet) : Type 0 where
  pub first_word : p.raw_version_traffic_class_flow_label < 2 ^ 32
  pub fits_payload_length : p.raw_payload_length < 2 ^ 16
  pub fits_next_header : p.raw_next_header < 2 ^ 8
  pub fits_hop_limit : p.raw_hop_limit < 2 ^ 8

pub data Field : Type 0 where
  version traffic_class flow_label payload_length next_header hop_limit : Field

abbrev pub width : Field → ℕ
width version = 4
width traffic_class = 8
width flow_label = 20
width payload_length = 16
width next_header = 8
width hop_limit = 8

abbrev pub set : Field → ℕ → Ipv6Packet → Ipv6Packet
set version v p = Ipv6.set_version v p
set traffic_class v p = Ipv6.set_traffic_class v p
set flow_label v p = Ipv6.set_flow_label v p
set payload_length v p = Ipv6.set_payload_length v p
set next_header v p = Ipv6.set_next_header v p
set hop_limit v p = Ipv6.set_hop_limit v p

-- What all the getters read.
pub record View : Type 0 where
  pub version : ℕ
  pub traffic_class : ℕ
  pub flow_label : ℕ
  pub payload_length : ℕ
  pub next_header : ℕ
  pub hop_limit : ℕ

abbrev pub view : Ipv6Packet → View
view p = record {
  version = Ipv6.version p;
  traffic_class = Ipv6.traffic_class p;
  flow_label = Ipv6.flow_label p;
  payload_length = Ipv6.payload_length p;
  next_header = Ipv6.next_header p;
  hop_limit = Ipv6.hop_limit p;
}

-- A view in which one field is written.
abbrev pub write : Field → ℕ → View → View
write Field.version v w = record w { version = v }
write Field.traffic_class v w = record w { traffic_class = v }
write Field.flow_label v w = record w { flow_label = v }
write Field.payload_length v w = record w { payload_length = v }
write Field.next_header v w = record w { next_header = v }
write Field.hop_limit v w = record w { hop_limit = v }
