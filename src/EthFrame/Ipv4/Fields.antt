-- ===== src/EthFrame/Ipv4/Fields.antt =====
-- The fields of an IPv4 header: what the setters do to what the getters read.
use Prim.Native.Nat.{bit_and, bit_or}
use shoc.Base.{ℕ, ◌+◌, ◌*◌, ◌/◌, ◌%◌, ◌^◌, ◌<◌, ◌≡◌, refl, ap, ◌∙◌, arith, All}
use shoc.Base.Bits.{join, low_mask, high_mask}
use shoc.EthFrame.{be16toh}
use shoc.EthFrame.Checksum.{IsWord}
use shoc.EthFrame.Ipv4
use shoc.EthFrame.Ipv4.{Ipv4Packet}

-- The raw fields fit the types that the class declares.
pub record IsPacket (p : Ipv4Packet) : Type 0 where
  pub octets :
      (p.raw_version_ihl < 2 ^ 8)
      × (p.raw_dscp_ecn < 2 ^ 8)
      × (p.raw_ttl < 2 ^ 8)
      × (p.raw_protocol < 2 ^ 8)
  pub halves :
      (p.raw_total_length < 2 ^ 16)
      × (p.raw_identification < 2 ^ 16)
      × (p.raw_flags_fragment_offset < 2 ^ 16)
      × (p.raw_header_checksum < 2 ^ 16)
  pub addresses : (p.raw_source_address < 2 ^ 32) × (p.raw_destination_address < 2 ^ 32)
  pub behind : All IsWord p.rest

pub data Field : Type 0 where
  version ihl dscp ecn total_length identification flags fragment_offset ttl protocol
        header_checksum source_address destination_address :
      Field

abbrev pub width : Field → ℕ
width version = 4
width ihl = 4
width dscp = 6
width ecn = 2
width flags = 3
width fragment_offset = 13
width ttl = 8
width protocol = 8
width source_address = 32
width destination_address = 32
width _ = 16

abbrev pub set : Field → ℕ → Ipv4Packet → Ipv4Packet
set version v p = Ipv4.set_version v p
set ihl v p = Ipv4.set_ihl v p
set dscp v p = Ipv4.set_dscp v p
set ecn v p = Ipv4.set_ecn v p
set total_length v p = Ipv4.set_total_length v p
set identification v p = Ipv4.set_identification v p
set flags v p = Ipv4.set_flags v p
set fragment_offset v p = Ipv4.set_fragment_offset v p
set ttl v p = Ipv4.set_ttl v p
set protocol v p = Ipv4.set_protocol v p
set header_checksum v p = Ipv4.set_header_checksum v p
set source_address v p = Ipv4.set_source_address v p
set destination_address v p = Ipv4.set_destination_address v p

-- What all the getters read.
pub record View : Type 0 where
  pub version : ℕ
  pub ihl : ℕ
  pub dscp : ℕ
  pub ecn : ℕ
  pub total_length : ℕ
  pub identification : ℕ
  pub flags : ℕ
  pub fragment_offset : ℕ
  pub ttl : ℕ
  pub protocol : ℕ
  pub header_checksum : ℕ
  pub source_address : ℕ
  pub destination_address : ℕ

abbrev pub view : Ipv4Packet → View
view p = record {
  version = Ipv4.version p;
  ihl = Ipv4.ihl p;
  dscp = Ipv4.dscp p;
  ecn = Ipv4.ecn p;
  total_length = Ipv4.total_length p;
  identification = Ipv4.identification p;
  flags = Ipv4.flags p;
  fragment_offset = Ipv4.fragment_offset p;
  ttl = Ipv4.ttl p;
  protocol = Ipv4.protocol p;
  header_checksum = Ipv4.header_checksum p;
  source_address = Ipv4.source_address p;
  destination_address = Ipv4.destination_address p;
}

-- A view in which one field is written.
abbrev pub write : Field → ℕ → View → View
write Field.version v w = record w { version = v }
write Field.ihl v w = record w { ihl = v }
write Field.dscp v w = record w { dscp = v }
write Field.ecn v w = record w { ecn = v }
write Field.total_length v w = record w { total_length = v }
write Field.identification v w = record w { identification = v }
write Field.flags v w = record w { flags = v }
write Field.fragment_offset v w = record w { fragment_offset = v }
write Field.ttl v w = record w { ttl = v }
write Field.protocol v w = record w { protocol = v }
write Field.header_checksum v w = record w { header_checksum = v }
write Field.source_address v w = record w { source_address = v }
write Field.destination_address v w = record w { destination_address = v }

both : {A : Type 0} (f : ℕ → ℕ → A) (a b c d : ℕ) → a ≡ c → b ≡ d → f a b ≡ f c d
both f a b c d h k = ap (λ x. f x b) h ∙ ap (f c) k

-- The upper one of two fields of a word is written, and the lower one.
upper_written :
    (k raw v m : ℕ) → m + 1 ≡ 2 ^ k → bit_or (v * 2 ^ k) (bit_and raw m) ≡ v * 2 ^ k + raw % 2 ^ k
upper_written k raw v m e =
    ap (λ x. bit_or (v * 2 ^ k) x) (low_mask k raw m e) ∙ join k v (raw % 2 ^ k) (grind arith)

lower_written :
    (j k raw v m : ℕ)
    → m + 1 ≡ 2 ^ j
    → raw / 2 ^ k < 2 ^ j
    → v < 2 ^ k
    → bit_or (bit_and raw (m * 2 ^ k)) v ≡ raw / 2 ^ k * 2 ^ k + v
lower_written j k raw v m e h b =
    ap (λ x. bit_or x v) (high_mask j k raw m e h) ∙ join k (raw / 2 ^ k) v b

-- In a packet whose raw fields fit their types, writing a value that fits the field is read back by the
-- getter of the field, and changes what no other getter reads.
pub set-view :
    (f : Field) (v : ℕ) (p : Ipv4Packet)
    → IsPacket p
    → v < 2 ^ width f
    → view (set f v p) ≡ write f v (view p)
set-view Field.version v p h b =
    let e = upper_written 4 p.raw_version_ihl v 15 refl in
    both (λ x y. record (view p) { version = x; ihl = y }) _ _ _ _ (omega (arith, e))
      (omega (
        arith,
        e,
        low_mask 4 (Ipv4.set_version v p).raw_version_ihl 15 refl,
        low_mask 4 p.raw_version_ihl 15 refl,
      ))
set-view Field.ihl v p h b =
    let e = lower_written 4 4 p.raw_version_ihl v 15 refl (omega arith) b in
    both (λ x y. record (view p) { version = x; ihl = y }) _ _ _ _ (omega (arith, e))
      (omega (arith, e, low_mask 4 (Ipv4.set_ihl v p).raw_version_ihl 15 refl))
set-view Field.dscp v p h b =
    let e = upper_written 2 p.raw_dscp_ecn v 3 refl in
    both (λ x y. record (view p) { dscp = x; ecn = y }) _ _ _ _ (omega (arith, e))
      (omega (
        arith,
        e,
        low_mask 2 (Ipv4.set_dscp v p).raw_dscp_ecn 3 refl,
        low_mask 2 p.raw_dscp_ecn 3 refl,
      ))
set-view Field.ecn v p h b =
    let e = lower_written 6 2 p.raw_dscp_ecn v 63 refl (omega arith) b in
    both (λ x y. record (view p) { dscp = x; ecn = y }) _ _ _ _ (omega (arith, e))
      (omega (arith, e, low_mask 2 (Ipv4.set_ecn v p).raw_dscp_ecn 3 refl))
set-view Field.total_length v p h b = ap (λ x. record (view p) { total_length = x }) (omega arith)
set-view Field.identification v p h b =
    ap (λ x. record (view p) { identification = x }) (omega arith)
set-view Field.flags v p h b =
    let raw = be16toh p.raw_flags_fragment_offset in
    let e = upper_written 13 raw v 8191 refl in
    let after = be16toh (Ipv4.set_flags v p).raw_flags_fragment_offset in
    both (λ x y. record (view p) { flags = x; fragment_offset = y }) _ _ _ _ (omega (arith, e))
      (omega (arith, e, low_mask 13 after 8191 refl, low_mask 13 raw 8191 refl))
set-view Field.fragment_offset v p h b =
    let e = join 13 (Ipv4.flags p) v b in
    let after = be16toh (Ipv4.set_fragment_offset v p).raw_flags_fragment_offset in
    both (λ x y. record (view p) { flags = x; fragment_offset = y }) _ _ _ _ (omega (arith, e))
      (omega (arith, e, low_mask 13 after 8191 refl))
set-view Field.ttl v p h b = refl
set-view Field.protocol v p h b = refl
set-view Field.header_checksum v p h b =
    ap (λ x. record (view p) { header_checksum = x }) (omega arith)
set-view Field.source_address v p h b =
    ap (λ x. record (view p) { source_address = x }) (omega arith)
set-view Field.destination_address v p h b =
    ap (λ x. record (view p) { destination_address = x }) (omega arith)
