-- ===== src/EthFrame/Udp/Receiver.antt =====
-- The receiver's test of a UDP segment: the one's complement sum, in network byte order, of the
-- pseudo header and of the datagram with its checksum, filled up with a zero if its length is odd, is
-- zero.
use shoc.Base
use shoc.Base.{
  ℕ, zero, suc, ◌+◌, ◌-◌, ◌*◌, ◌/◌, ◌%◌, ◌^◌, ◌<◌, ◌≤◌, ◌≡◌, ◌≢◌, refl, sym, ap, ◌∙◌, arith, List,
  [], ◌∷◌, ◌++◌, map, All,
}
use shoc.Base.Bits.{low_mask}
use shoc.EthFrame.{be16toh}
use shoc.EthFrame.Checksum.{take, drop, fold_carry, sum, IsWord}
use shoc.EthFrame.Ipv4.{Ipv4Packet, source_address, destination_address}
use shoc.EthFrame.Ipv4.Fields.{IsPacket}
use shoc.EthFrame.Ipv6.{Ipv6Packet}
use shoc.EthFrame.Udp.{
  UdpSegment, length, words, range_len, pseudoheader_sum, pseudoheader_part,
  calculate_checksum_ipv4, update_checksum_ipv4,
}
use shoc.EthFrame.Udp.Verification.{
  IsSegment, padded, unpadded, odd_word, read_behind, datagram, updated, covers,
}

abbrev pub pseudo_header : Ipv4Packet → UdpSegment → List ℕ
pseudo_header p s =
    (source_address p / 2 ^ 16)
    ∷ (source_address p % 2 ^ 16)
    ∷ (destination_address p / 2 ^ 16)
    ∷ (destination_address p % 2 ^ 16)
    ∷ 17
    ∷ length s
    ∷ []

abbrev pub receiver_sum : Ipv4Packet → UdpSegment → ℕ
receiver_sum p s = (sum (pseudo_header p s) + sum (map be16toh (datagram s))) % 65535

abbrev pub receiver_sum_ipv6 : Ipv6Packet → UdpSegment → ℕ
receiver_sum_ipv6 p s =
    (sum (map be16toh p.raw_addresses) + 17 + length s + sum (map be16toh (datagram s))) % 65535

swap_sum : (l : List ℕ) → All IsWord l → sum (map be16toh l) % 65535 ≡ 256 * sum l % 65535
swap_sum [] h = omega arith
swap_sum (w ∷ l) h = omega (arith, swap_sum l h.1, h.0)

take-All : (n : ℕ) (l : List ℕ) → All IsWord l → All IsWord (take n l)
take-All zero l h = tt
take-All (suc n) [] h = tt
take-All (suc n) (w ∷ l) h = (h.0, take-All n l h.1)

drop-All : (n : ℕ) (l : List ℕ) → All IsWord l → All IsWord (drop n l)
drop-All zero l h = h
drop-All (suc n) [] h = tt
drop-All (suc n) (w ∷ l) h = drop-All n l h.1

append_padded-All : (l k : List ℕ) → All IsWord l → All IsWord (l ++ map padded k)
append_padded-All [] [] h = tt
append_padded-All [] (w ∷ k) h = (omega arith, append_padded-All [] k tt)
append_padded-All (w ∷ l) k h = (h.0, append_padded-All l k h.1)

-- The checksum is among the words of the datagram.
drop_past :
    (m n : ℕ) (c : ℕ) (s : UdpSegment)
    → 4 ≤ m
    → 4 ≤ n
    → drop m (take n (words (record s { raw_checksum = c }))) ≡ drop m (take n (words s))
drop_past m n c s h k =
    let at : (t : ℕ) → 4 ≤ t → t ≡ suc (suc (suc (suc (t - 4)))) = λ t g. omega arith in
    ap (λ x. drop x (take n (words (record s { raw_checksum = c })))) (at m h)
    ∙ ap
        (λ y. drop (suc (suc (suc (suc (m - 4))))) (take y (words (record s { raw_checksum = c }))))
        (at n k)
    ∙ sym (
        ap (λ x. drop x (take n (words s))) (at m h)
        ∙ ap (λ y. drop (suc (suc (suc (suc (m - 4))))) (take y (words s))) (at n k))

odd_past :
    (c : ℕ) (s : UdpSegment) → 8 ≤ length s → odd_word (record s { raw_checksum = c }) ≡ odd_word s
odd_past c s h =
    let at : length s / 2 ≡ suc (suc (suc (suc (length s / 2 - 4)))) = omega arith in
    ap (λ x. take (length s % 2) (drop x (words (record s { raw_checksum = c })))) at
    ∙ sym (ap (λ x. take (length s % 2) (drop x (words s))) at)

behind_past :
    (c : ℕ) (s : UdpSegment)
    → 8 ≤ length s
    → read_behind (record s { raw_checksum = c }) ≡ read_behind s
behind_past c s h =
    let q : UdpSegment = record s { raw_checksum = c } in
    ap (λ l. map unpadded l ++ drop ((length s + 1) / 2) (take (range_len s) (words q)))
      (odd_past c s h)
    ∙ ap (λ l. map unpadded (odd_word s) ++ l)
        (drop_past ((length s + 1) / 2) (range_len s) c s (omega (arith, h)) (omega (arith, h)))

pseudo_sum :
    (p : Ipv4Packet) (s : UdpSegment) → IsPacket p → pseudoheader_sum p s ≡ sum (pseudo_header p s)
pseudo_sum p s h = omega (
  arith,
  low_mask 16 (source_address p) 65535 refl,
  low_mask 16 (destination_address p) 65535 refl,
)

-- The sum of the receiver, from what the calculated checksum covers.
received :
    (part : ℕ) (s : UdpSegment)
    → IsSegment s
    → part < 2 ^ 16
    → (256 * part + sum (map be16toh (datagram (updated part s))) + 256 * sum (read_behind s))
        % 65535
      ≡ 0
received part s h b =
    let q = updated part s in
    let same = ap sum (behind_past q.raw_checksum s h.has_header) in
    let words_fit : All IsWord (words q) =
      (h.halves.0, (h.halves.1.0, (h.halves.1.1.0, (omega arith, h.halves.1.1.1.1)))) in
    let fit = append_padded-All _ (odd_word q) (take-All (length s / 2) (words q) words_fit) in
    omega (arith, covers part s h b, same, swap_sum (datagram q) fit)

-- Over IPv4, where the sum of the pseudo header needs a second fold and nothing but zeros is read behind
-- the datagram, the carry is lost: the receiver's sum is one and not zero. The raw fields fit their types,
-- the length counts the header, and the words that are read are there.
pub update_checksum_ipv4-loses_carry :
    (p : Ipv4Packet) (s : UdpSegment)
    → IsPacket p
    → IsSegment s
    → 2 ^ 16 ≤ fold_carry (pseudoheader_sum p s)
    → sum (read_behind s) ≡ 0
    → receiver_sum p (update_checksum_ipv4 p s) ≡ 1
unfolding update_checksum_ipv4 calculate_checksum_ipv4
update_checksum_ipv4-loses_carry p s h k two zeros =
    let fit : pseudoheader_part p s < 2 ^ 16 = omega arith in
    let low = low_mask 16 (pseudoheader_sum p s) 65535 refl in
    let r = received (pseudoheader_part p s) s k fit in
    let e = pseudo_sum p s h in omega (arith, r, e, low, two, zeros)
