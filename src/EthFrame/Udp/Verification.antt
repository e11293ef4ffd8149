-- ===== src/EthFrame/Udp/Verification.antt =====
-- What the receiver of a UDP segment finds when it adds up what the checksum is to protect.
use shoc.Base.{
  ℕ, zero, suc, ◌+◌, ◌-◌, ◌*◌, ◌/◌, ◌%◌, ◌^◌, ◌<◌, ◌≤◌, ◌≡◌, ◌≢◌, refl, sym, ap, ◌∙◌, arith, List,
  [], ◌∷◌, ◌++◌, map, All,
}
use shoc.Base
use shoc.EthFrame.{be16toh, htobe16}
use shoc.EthFrame.Checksum.{
  take, drop, sum-take, sum-take_bound, add_words, fold_carry, complement, sum, IsWord,
  add_words-sum, fold_carry_twice, complement_word,
}
use shoc.EthFrame.Udp.{UdpSegment, length, words, range_len, calculate_checksum}

-- The raw fields fit their types, and the length counts the header.
pub record IsSegment (s : UdpSegment) : Type 0 where
  pub halves : All IsWord (words s)
  pub has_header : 8 ≤ length s
  pub in_range : range_len s ≤ Base.length (words s)

-- A word is read from two bytes, the first of them the low one. The last byte of an odd datagram with a
-- zero behind it, and the byte that stands there behind a zero
abbrev pub padded : ℕ → ℕ
padded w = w % 256

abbrev pub unpadded : ℕ → ℕ
unpadded w = w / 256 * 256

-- The word that the datagram ends in, if its length is odd
abbrev pub odd_word : UdpSegment → List ℕ
odd_word s = take (length s % 2) (drop (length s / 2) (words s))

-- The words of the datagram, an odd one filled up with a zero (RFC 768)
abbrev pub datagram : UdpSegment → List ℕ
datagram s = take (length s / 2) (words s) ++ map padded (odd_word s)

-- What lies behind the datagram and is read all the same.
abbrev pub read_behind : UdpSegment → List ℕ
read_behind s =
    map unpadded (odd_word s) ++ drop ((length s + 1) / 2) (take (range_len s) (words s))

sum-append : (l k : List ℕ) → sum (l ++ k) ≡ sum l + sum k
sum-append [] k = omega arith
sum-append (w ∷ l) k = omega (arith, sum-append l k)

sum-padded :
    (r : ℕ) (l : List ℕ)
    → r < 2
    → sum (take r l) ≡ sum (map padded (take r l)) + sum (map unpadded (take r l))
sum-padded zero l h = omega arith
sum-padded (suc zero) [] h = omega arith
sum-padded (suc zero) (w ∷ l) h = omega arith
sum-padded (suc (suc r)) l h = absurd (omega arith)

sum-take_and :
    (k r : ℕ) (l : List ℕ) → sum (take (k + r) l) ≡ sum (take k l) + sum (take r (drop k l))
sum-take_and zero r l = let e : 0 + r ≡ r = omega arith in rw e (omega arith)
sum-take_and (suc k) zero [] = let e : suc k + 0 ≡ suc k = omega arith in rw e (omega arith)
sum-take_and (suc k) (suc r) [] =
    let e : suc k + suc r ≡ suc (k + suc r) = omega arith in rw e (omega arith)
sum-take_and (suc k) r (w ∷ l) =
    let e : suc k + r ≡ suc (k + r) = omega arith in rw e (omega (arith, sum-take_and k r l))

-- All that is read is the datagram and what is read behind it.
datagram_and_behind :
    (s : UdpSegment)
    → 8 ≤ length s
    → sum (take (range_len s) (words s)) ≡ sum (datagram s) + sum (read_behind s)
datagram_and_behind s h =
    let halves : (length s + 1) / 2 ≡ length s / 2 + length s % 2 = omega arith in
    omega (
      arith,
      sum-take ((length s + 1) / 2) (range_len s) (words s) (omega (arith, h)),
      ap (λ k. sum (take k (words s))) halves,
      sum-take_and (length s / 2) (length s % 2) (words s),
      sum-padded (length s % 2) (drop (length s / 2) (words s)) (omega arith),
      sum-append (take (length s / 2) (words s)) (map padded (odd_word s)),
      sum-append (map unpadded (odd_word s))
          (drop ((length s + 1) / 2) (take (range_len s) (words s))),
    )

-- The sum of all that is read but the checksum
abbrev others : UdpSegment → ℕ
others s =
    s.raw_source_port + s.raw_destination_port + s.raw_length + sum (take (length s - 4) s.memory)

sum_read :
    (s : UdpSegment) → 8 ≤ length s → sum (take (range_len s) (words s)) ≡ s.raw_checksum + others s
sum_read s h =
    let four_and_more : range_len s ≡ suc (suc (suc (suc (length s - 4)))) = omega arith in
    ap (λ k. sum (take k (words s))) four_and_more ∙ omega arith

others_bound : (s : UdpSegment) → IsSegment s → others s ≤ 65535 * 65535
others_bound s h =
    omega (arith, sum-take_bound (length s - 4) s.memory h.halves.1.1.1.1, h.has_header)

calculated :
    (part : ℕ) (s : UdpSegment)
    → IsSegment s
    → part < 2 ^ 16
    → calculate_checksum part s ≡ be16toh (65535 - fold_carry (fold_carry (part + others s)))
unfolding calculate_checksum
calculated part s h b =
    let bound = others_bound s h in
    let total : (add_words part (take (range_len s) (words s)) + 2 ^ 32 - s.raw_checksum) % 2 ^ 32
        ≡ part + others s =
      omega (
        arith,
        add_words-sum part (take (range_len s) (words s)) (omega arith),
        sum_read s h.has_header,
        bound,
        h.halves,
      ) in
    ap (λ t. be16toh (complement (fold_carry (fold_carry t)))) total
    ∙ ap be16toh (complement_word _ (fold_carry_twice (part + others s) (omega (arith, bound))).0)

-- The segment with the checksum that is calculated from a part for the pseudo header
abbrev pub updated : ℕ → UdpSegment → UdpSegment
updated part s = record s { raw_checksum = htobe16 (calculate_checksum part s) }

pub covers :
    (part : ℕ) (s : UdpSegment)
    → IsSegment s
    → part < 2 ^ 16
    → (part + sum (datagram (updated part s)) + sum (read_behind (updated part s))) % 65535 ≡ 0
covers part s h b =
    let q = updated part s in
    let r = fold_carry_twice (part + others s) (omega (arith, others_bound s h)) in
    omega (
      arith,
      calculated part s h b,
      r.0,
      r.1,
      sum_read q h.has_header,
      datagram_and_behind q h.has_header,
    )
