-- ===== src/Checksum/Verify.antt =====
-- What the three verifications of src/c/checksum.c decide, and that a checksum filled in as RFC 1071
-- says is accepted.
use my_wireshark.Base.{
  take-IsBytes, ℕ, zero, suc, ◌+◌, ◌/◌, ◌%◌, ◌^◌, ◌≤◌, ◌<◌, ◌≡◌, refl, sym, ap, ◌∙◌, subst, List,
  [], ◌∷◌, ◌++◌, some, arith, length, take, IsBytes, bit_and, if_elim, leb, length-append,
}
use my_wireshark.Base.Bits.{bit_and_mask}
use my_wireshark.Checksum.{
  checksum_verify, copy, ipv4_pseudo_header, ipv6_pseudo_header, sum_both,
  checksum_verify_ipv4_pseudo, checksum_verify_ipv6_pseudo,
}
use my_wireshark.Checksum.Sum.{
  word_sum, word_sum-lt, checksum_partial-word_sum, is_ones_sum, is_all_ones_lem,
}

pub take_all {ℓ} : {A : Type ℓ} (xs : List A) → take (length xs) xs ≡ xs
take_all [] = refl
take_all (x ∷ xs) = ap (λ t. x ∷ t) (take_all xs)

length-take_le : (n : ℕ) (xs : List ℕ) → length (take n xs) ≤ n
length-take_le zero xs = omega arith
length-take_le (suc n) [] = omega arith
length-take_le (suc n) (x ∷ xs) = omega (arith, length-take_le n xs)

-- Of up to 65535 bytes that are there, `checksum_verify` tells whether their words, summed without
-- bound, make a positive multiple of 65535.
pub checksum_verify_lem :
    (bytes : List ℕ) (len : ℕ)
    → IsBytes bytes
    → len ≤ length bytes
    → len ≤ 65535
    → checksum_verify bytes len ≡ some (is_ones_sum (word_sum (take len bytes)))
unfolding checksum_verify
checksum_verify_lem bytes len h hl hb =
    let s = word_sum (take len bytes) in
    let small : s < 2 ^ 32 =
      omega (
        arith,
        word_sum-lt (take len bytes) (take-IsBytes len bytes h),
        length-take_le len bytes,
      ) in
    let e : (0 + s) % 2 ^ 32 ≡ s = omega arith in
    rw (checksum_partial-word_sum bytes len 0 h hl (omega arith), e) (is_all_ones_lem s small)

module _ (pseudo segment : List ℕ) where
  sum_both_lem :
      (segment_len : ℕ)
      → IsBytes pseudo
      → IsBytes segment
      → length pseudo ≤ 40
      → segment_len ≤ length segment
      → segment_len ≤ 65535
      → sum_both pseudo (length pseudo) segment segment_len
        ≡ some (is_ones_sum (word_sum pseudo + word_sum (take segment_len segment)))
  unfolding sum_both
  sum_both_lem n hp hs short hn hb =
      let p = word_sum pseudo in
      let s = word_sum (take n segment) in
      let small : p + s < 2 ^ 32 = omega (
        arith,
        word_sum-lt pseudo hp,
        word_sum-lt (take n segment) (take-IsBytes n segment hs),
        length-take_le n segment,
      ) in
      let e₁ : (0 + p) % 2 ^ 32 ≡ p = omega arith in
      let e₂ : (p + s) % 2 ^ 32 ≡ p + s = omega arith in
      rw
        (
          checksum_partial-word_sum pseudo (length pseudo) 0 hp (omega arith) (omega arith),
          take_all pseudo,
          e₁,
          checksum_partial-word_sum segment n p hs hn (omega arith),
          e₂,
        )
        (is_all_ones_lem (p + s) small)

low_byte : (n : ℕ) → bit_and n 0xFF ≡ n % 2 ^ 8
low_byte n = bit_and_mask 8 n

-- The IPv4 pseudo-header of RFC 793 for a segment of `n` bytes.
abbrev pub rfc_pseudo_ipv4 : List ℕ → List ℕ → ℕ → ℕ → List ℕ
rfc_pseudo_ipv4 src_ip dst_ip protocol n =
    src_ip ++ (dst_ip ++ (0 ∷ protocol ∷ (n / 256) ∷ (n % 256) ∷ []))

-- The IPv6 pseudo-header of RFC 2460 for a segment of `n < 65536` bytes.
abbrev pub rfc_pseudo_ipv6 : List ℕ → List ℕ → ℕ → ℕ → List ℕ
rfc_pseudo_ipv6 src_ip dst_ip next_header n =
    src_ip ++ (dst_ip ++ (0 ∷ 0 ∷ (n / 256) ∷ (n % 256) ∷ 0 ∷ 0 ∷ 0 ∷ next_header ∷ []))

copy_all : (xs : List ℕ) (n : ℕ) → length xs ≡ n → copy xs 0 n ≡ some xs
unfolding copy
copy_all xs n e =
    if_elim (λ o. o ≡ some xs) (leb (0 + n) (length xs))
      (λ _. ap some (ap (λ k. take k xs) (sym e) ∙ take_all xs)) λ q. ground arith

pub append-IsBytes : (xs ys : List ℕ) → IsBytes xs → IsBytes ys → IsBytes (xs ++ ys)
append-IsBytes [] ys hx hy = hy
append-IsBytes (x ∷ xs) ys (h, hx) hy = (h, append-IsBytes xs ys hx hy)

module _ (segment src_ip dst_ip : List ℕ) where
  -- Of a segment of up to 65535 bytes, between addresses of 4 bytes, the IPv4 verification tells
  -- whether the words of the pseudo-header of RFC 793 and of the segment, summed without bound, make
  -- a positive multiple of 65535.
  pub checksum_verify_ipv4_pseudo_lem :
      (n protocol : ℕ)
      → IsBytes segment
      → IsBytes src_ip
      → IsBytes dst_ip
      → length src_ip ≡ 4
      → length dst_ip ≡ 4
      → protocol < 256
      → n ≤ length segment
      → n ≤ 65535
      → checksum_verify_ipv4_pseudo segment n src_ip dst_ip protocol
        ≡ some (
            is_ones_sum
              (word_sum (rfc_pseudo_ipv4 src_ip dst_ip protocol n) + word_sum (take n segment)))
  unfolding checksum_verify_ipv4_pseudo ipv4_pseudo_header
  checksum_verify_ipv4_pseudo_lem n protocol hg hs hd ls ld hp hn hb =
      let pseudo = rfc_pseudo_ipv4 src_ip dst_ip protocol n in
      let long : length pseudo ≡ 12 = omega (
        arith,
        length-append src_ip (dst_ip ++ (0 ∷ protocol ∷ (n / 256) ∷ (n % 256) ∷ [])),
        length-append dst_ip (0 ∷ protocol ∷ (n / 256) ∷ (n % 256) ∷ []),
      ) in
      let e₁ : n / 2 ^ 8 % 2 ^ 8 ≡ n / 256 = omega arith in
      let bytes : IsBytes pseudo =
        append-IsBytes src_ip _ hs
          (append-IsBytes dst_ip _ hd (omega arith, (hp, (omega arith, (omega arith, tt))))) in
      rw (copy_all src_ip 4 ls, copy_all dst_ip 4 ld, e₁, low_byte n)
        (subst
          (λ k.
            sum_both pseudo k segment n
            ≡ some (is_ones_sum (word_sum pseudo + word_sum (take n segment))))
          long (sum_both_lem pseudo segment n bytes hg (omega arith) hn hb))

  -- Of a segment of up to 65535 bytes, between addresses of 16 bytes, the IPv6 verification tells
  -- whether the words of the pseudo-header of RFC 2460 and of the segment, summed without bound,
  -- make a positive multiple of 65535.
  pub checksum_verify_ipv6_pseudo_lem :
      (n next_header : ℕ)
      → IsBytes segment
      → IsBytes src_ip
      → IsBytes dst_ip
      → length src_ip ≡ 16
      → length dst_ip ≡ 16
      → next_header < 256
      → n ≤ length segment
      → n ≤ 65535
      → checksum_verify_ipv6_pseudo segment n src_ip dst_ip next_header
        ≡ some (
            is_ones_sum
              (word_sum (rfc_pseudo_ipv6 src_ip dst_ip next_header n) + word_sum (take n segment)))
  unfolding checksum_verify_ipv6_pseudo ipv6_pseudo_header
  checksum_verify_ipv6_pseudo_lem n next_header hg hs hd ls ld hp hn hb =
      let pseudo = rfc_pseudo_ipv6 src_ip dst_ip next_header n in
      let tail = 0 ∷ 0 ∷ (n / 256) ∷ (n % 256) ∷ 0 ∷ 0 ∷ 0 ∷ next_header ∷ [] in
      let long : length pseudo ≡ 40 =
        omega (arith, length-append src_ip (dst_ip ++ tail), length-append dst_ip tail) in
      let e₁ : n / 2 ^ 8 % 2 ^ 8 ≡ n / 256 = omega arith in
      let e₂ : n / 2 ^ 16 % 2 ^ 8 ≡ 0 = omega arith in
      let e₃ : n / 2 ^ 24 % 2 ^ 8 ≡ 0 = omega arith in
      let z : 0 < 256 = omega arith in
      let bytes : IsBytes pseudo = append-IsBytes src_ip _ hs (
        append-IsBytes dst_ip _ hd
          (z, (z, (omega arith, (omega arith, (z, (z, (z, (hp, tt))))))))) in
      rw (copy_all src_ip 16 ls, copy_all dst_ip 16 ld, e₁, e₂, e₃, low_byte n)
        (subst
          (λ k.
            sum_both pseudo k segment n
            ≡ some (is_ones_sum (word_sum pseudo + word_sum (take n segment))))
          long (sum_both_lem pseudo segment n bytes hg (omega arith) hn hb))
