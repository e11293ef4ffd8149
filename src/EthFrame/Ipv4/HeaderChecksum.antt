-- ===== src/EthFrame/Ipv4/HeaderChecksum.antt =====
-- The header checksum is the one's complement of the one's complement sum of the other words.
use shoc.Base.{
  length, ℕ, suc, ◌+◌, ◌-◌, ◌*◌, ◌/◌, ◌%◌, ◌^◌, ◌<◌, ◌≤◌, ◌≡◌, refl, sym, ap, ◌∙◌, arith,
}
use shoc.Base.Bits.{low_mask}
use shoc.EthFrame.{be16toh}
use shoc.EthFrame.Checksum.{
  take, add_words, fold_carry, complement, sum, sum-take_bound, add_words-sum, fold_carry_twice,
  complement_word,
}
use shoc.EthFrame.Ipv4.{
  Ipv4Packet, ihl, words, header_checksum, calculate_header_checksum, update_header_checksum,
}
use shoc.EthFrame.Ipv4.Fields.{IsPacket}

-- The sum without the checksum, when n words of options follow the fixed header.
abbrev others : ℕ → Ipv4Packet → ℕ
others n p =
    p.raw_version_ihl
    + p.raw_dscp_ecn * 2 ^ 8
    + p.raw_total_length
    + p.raw_identification
    + p.raw_flags_fragment_offset
    + p.raw_ttl
    + p.raw_protocol * 2 ^ 8
    + p.raw_source_address % 2 ^ 16
    + p.raw_source_address / 2 ^ 16
    + p.raw_destination_address % 2 ^ 16
    + p.raw_destination_address / 2 ^ 16
    + sum (take n p.rest)

sum-words :
    (n : ℕ) (p : Ipv4Packet) → sum (take (n + 10) (words p)) ≡ p.raw_header_checksum + others n p
sum-words n p =
    let ten_and_more : n + 10 ≡ suc (suc (suc (suc (suc (suc (suc (suc (suc (suc n))))))))) =
      omega arith in
    ap (λ k. sum (take k (words p))) ten_and_more ∙ omega arith

others_bound : (n : ℕ) (p : Ipv4Packet) → IsPacket p → n ≤ 20 → others n p < 2 ^ 32
others_bound n p h b = omega (arith, sum-take_bound n p.rest h.behind)

-- The number of words behind the fixed header, for a header length in its bounds
option_words : (p : Ipv4Packet) → 5 ≤ ihl p → (n : ℕ) × (ihl p * 2 ≡ n + 10) × (n ≤ 20)
option_words p h =
    (ihl p * 2 - 10, omega arith, omega (arith, low_mask 4 p.raw_version_ihl 15 refl))

calculated :
    (n : ℕ) (p : Ipv4Packet)
    → IsPacket p
    → ihl p * 2 ≡ n + 10
    → n ≤ 20
    → calculate_header_checksum p ≡ be16toh (65535 - fold_carry (fold_carry (others n p)))
unfolding calculate_header_checksum
calculated n p h e b =
    let negated = (2 ^ 32 - p.raw_header_checksum) % 2 ^ 32 in
    let total : add_words negated (take (ihl p * 2) (words p)) ≡ others n p =
      ap (λ k. add_words negated (take k (words p))) e
      ∙ omega (
        arith,
        add_words-sum negated (take (n + 10) (words p)) (omega arith),
        sum-words n p,
        sum-take_bound n p.rest h.behind,
      ) in
    ap (λ s. be16toh (complement (fold_carry (fold_carry s)))) total
    ∙ ap be16toh (complement_word _ (fold_carry_twice (others n p) (others_bound n p h b)).0)

-- After an update, the checksum that is read is the one that would be calculated, and the one's
-- complement sum of all words of the header, the checksum included, is zero: the receiver's test. The
-- raw fields fit their types, the header length is at least 5, and the words of the options are there.
pub update_header_checksum-verifies :
    (p : Ipv4Packet)
    → IsPacket p
    → 5 ≤ ihl p
    → ihl p * 2 ≤ length (words p)
    → (calculate_header_checksum (update_header_checksum p)
        ≡ header_checksum (update_header_checksum p))
      × (sum (take (ihl p * 2) (words (update_header_checksum p))) % 65535 ≡ 0)
unfolding update_header_checksum
update_header_checksum-verifies p h l there =
    let (n, e, b) = option_words p l in
    let q = update_header_checksum p in
    let r = fold_carry_twice (others n p) (others_bound n p h b) in
    let once = calculated n p h e b in
    let raw : q.raw_header_checksum ≡ 65535 - fold_carry (fold_carry (others n p)) =
      omega (arith, once, r.0) in
    let h' : IsPacket q = record {
      octets = h.octets;
      halves = (h.halves.0, h.halves.1, h.halves.2, omega (arith, raw));
      addresses = h.addresses;
      behind = h.behind;
    } in
    (
      calculated n q h' e b ∙ ap be16toh (sym raw),
      ap (λ k. sum (take k (words q)) % 65535) e ∙ omega (arith, sum-words n q, raw, r.0, r.1),
    )
