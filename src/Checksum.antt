-- ===== src/Checksum.antt =====
-- src/c/checksum.c: the Internet checksum. A pointer is the list of the bytes from it on, and `none`
-- a read past them.
pub mod Sum
pub mod Verify
pub mod Fill
mod Tests
use my_wireshark.Base.{
  ◌>>=◌, ℕ, zero, suc, ◌+◌, ◌*◌, ◌/◌, ◌%◌, ◌^◌, bit_and, bit_or, Bool, List, [], ◌∷◌, ◌++◌, Option,
  none, some, leb, ◌==◌, if◌then◌else◌, length, take, drop,
}

-- `(hi << 8) | lo`
unfoldable pub be16 : ℕ → ℕ → ℕ
be16 hi lo = bit_or (hi * 2 ^ 8) lo

-- `n` bytes from offset `off` of `bytes`, as `memcpy` or a run of reads copies them.
unfoldable pub copy : List ℕ → ℕ → ℕ → Option (List ℕ)
copy bytes off n = if leb (off + n) (length bytes) then some (take n (drop off bytes)) else none

-- The loop and the odd byte after it, with `data + i`, `len - i` and the sum so far.
unfoldable pub checksum_partial : List ℕ → ℕ → ℕ → Option ℕ
unfolding be16
checksum_partial bytes zero sum = some sum
checksum_partial [] (suc n) sum = none
checksum_partial (hi ∷ rest) (suc zero) sum = some ((sum + hi * 2 ^ 8) % 2 ^ 32)
checksum_partial (hi ∷ []) (suc (suc n)) sum = none
checksum_partial (hi ∷ lo ∷ rest) (suc (suc n)) sum =
    checksum_partial rest n ((sum + be16 hi lo) % 2 ^ 32)

-- The `while` loop, on fuel.
unfoldable pub fold_carry : ℕ → ℕ → Option ℕ
fold_carry zero sum = none
fold_carry (suc fuel) sum =
    let next = fold_carry fuel (bit_and sum 0xFFFF + sum / 2 ^ 16) in
    if sum / 2 ^ 16 == 0 then some sum else next

abbrev pub fold_fuel : ℕ
fold_fuel = 3

-- The end of each of the three: the fold and the comparison.
unfoldable pub is_all_ones : ℕ → Option Bool
unfolding fold_carry
is_all_ones sum = do folded ← fold_carry fold_fuel sum; some (bit_and folded 0xFFFF == 0xFFFF)

unfoldable pub checksum_verify : List ℕ → ℕ → Option Bool
unfolding checksum_partial is_all_ones
checksum_verify bytes len = do sum ← checksum_partial bytes len 0; is_all_ones sum

-- `pseudo_header`, filled from the two addresses.
unfoldable pub ipv4_pseudo_header : ℕ → List ℕ → List ℕ → ℕ → Option (List ℕ)
unfolding copy
ipv4_pseudo_header segment_len src_ip dst_ip protocol = do
  from ← copy src_ip 0 4
  to ← copy dst_ip 0 4
  some (
      from
      ++ (to ++ (0 ∷ protocol ∷ (segment_len / 2 ^ 8 % 2 ^ 8) ∷ bit_and segment_len 0xFF ∷ [])))

unfoldable pub ipv6_pseudo_header : ℕ → List ℕ → List ℕ → ℕ → Option (List ℕ)
unfolding copy
ipv6_pseudo_header segment_len src_ip dst_ip next_header = do
  from ← copy src_ip 0 16
  to ← copy dst_ip 0 16
  some (
      from
      ++ (to
          ++ ((segment_len / 2 ^ 24 % 2 ^ 8)
              ∷ (segment_len / 2 ^ 16 % 2 ^ 8)
              ∷ (segment_len / 2 ^ 8 % 2 ^ 8)
              ∷ bit_and segment_len 0xFF
              ∷ 0
              ∷ 0
              ∷ 0
              ∷ next_header
              ∷ [])))

-- The two sums and the comparison, over a pseudo-header of `header_len` bytes.
unfoldable pub sum_both : List ℕ → ℕ → List ℕ → ℕ → Option Bool
unfolding checksum_partial is_all_ones
sum_both pseudo_header header_len segment segment_len = do
  sum ← checksum_partial pseudo_header header_len 0
  sum' ← checksum_partial segment segment_len sum
  is_all_ones sum'

unfoldable pub checksum_verify_ipv4_pseudo : List ℕ → ℕ → List ℕ → List ℕ → ℕ → Option Bool
unfolding ipv4_pseudo_header sum_both
checksum_verify_ipv4_pseudo segment segment_len src_ip dst_ip protocol = do
  pseudo_header ← ipv4_pseudo_header segment_len src_ip dst_ip protocol
  sum_both pseudo_header 12 segment segment_len

unfoldable pub checksum_verify_ipv6_pseudo : List ℕ → ℕ → List ℕ → List ℕ → ℕ → Option Bool
unfolding ipv6_pseudo_header sum_both
checksum_verify_ipv6_pseudo segment segment_len src_ip dst_ip next_header = do
  pseudo_header ← ipv6_pseudo_header segment_len src_ip dst_ip next_header
  sum_both pseudo_header 40 segment segment_len
