-- ===== src/Socket/Flags.antt =====
-- The bit of IFF_PROMISC in src/c/raw_socket.c, set and cleared.
use my_wireshark.Base.{
  ℕ, ◌+◌, ◌*◌, ◌/◌, ◌%◌, ◌^◌, ◌<◌, ◌≡◌, refl, sym, ap, ◌∙◌, bit_and, bit_or, ◌==◌, not, ◌||◌, Bool,
  true, arith, every, every-lt,
}
use my_wireshark.Base.Bits.{bit_or_high, bit_and_high, bit_and_keep}
use my_wireshark.Socket.{iff_promisc, not_iff_promisc}

high_byte : ℕ → Bool
high_byte q = not (bit_and q 1 == 0) || (bit_and (bit_or q 1) 0xfe == q)

high_bytes : every high_byte 256 ≡ true
unfolding every high_byte
high_bytes = refl

high_byte_cleared : (q : ℕ) → q < 256 → bit_and q 1 ≡ 0 → bit_and (bit_or q 1) 0xfe ≡ q
unfolding high_byte
high_byte_cleared q h e = ground (arith, every-lt high_byte 256 q h high_bytes)

-- Flags without the bit are the same after it is set and cleared.
pub cleared-set :
    (flags : ℕ)
    → flags < 2 ^ 16
    → bit_and flags iff_promisc ≡ 0
    → bit_and (bit_or flags iff_promisc) not_iff_promisc ≡ flags
cleared-set flags small off =
    let q : ℕ = flags / 256 in
    let r : ℕ = flags % 256 in
    let split : flags ≡ q * 256 + r = omega arith in
    let low : r < 256 = omega arith in
    let high : bit_and q 1 ≡ 0 =
      omega (arith, bit_and_high 8 q 1 r low, ap (λ (f : ℕ). bit_and f 256) split, off) in
    ap (λ (f : ℕ). bit_and (bit_or f iff_promisc) not_iff_promisc) split
    ∙ ap (λ (f : ℕ). bit_and f not_iff_promisc) (bit_or_high 8 q 1 r low)
    ∙ bit_and_keep 8 (bit_or q 1) 0xfe r low
    ∙ ap (λ (k : ℕ). k * 256 + r) (high_byte_cleared q (omega (arith, small)) high)
    ∙ sym split
