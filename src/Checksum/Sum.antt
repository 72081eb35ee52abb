-- ===== src/Checksum/Sum.antt =====
-- The loops of src/c/checksum.c: the sum of the words, and the fold of its carries.
use my_wireshark.Base.{
  ℕ, zero, suc, ◌+◌, ◌*◌, ◌/◌, ◌%◌, ◌^◌, ◌≤◌, ◌<◌, ◌≡◌, refl, ap, ◌∙◌, Bool, not, ◌&&◌, List, [],
  ◌∷◌, some, arith, length, take, IsBytes, ◌==◌, bit_and, if_elim, le_or_lt, ==_iff, inl, inr,
}
use my_wireshark.Base.Bits.{bit_or_fields, bit_and_mask}
use my_wireshark.Checksum.{be16, checksum_partial, fold_carry, fold_fuel, is_all_ones}

pub be16-number : (hi lo : ℕ) → lo < 256 → be16 hi lo ≡ hi * 256 + lo
unfolding be16
be16-number hi lo h = bit_or_fields 8 hi lo h

-- The sum of the big-endian 16-bit words of `bytes`, an odd last byte padded by zero.
unfoldable pub word_sum : List ℕ → ℕ
word_sum [] = 0
word_sum (hi ∷ []) = hi * 256
word_sum (hi ∷ lo ∷ rest) = hi * 256 + lo + word_sum rest

-- The word sum of fewer than 2 ^ 17 bytes fits 32 bits.
pub word_sum-lt : (bytes : List ℕ) → IsBytes bytes → word_sum bytes ≤ 32768 * (length bytes + 1)
unfolding word_sum
word_sum-lt [] h = omega arith
word_sum-lt (hi ∷ []) (h, _) = omega arith
word_sum-lt (hi ∷ lo ∷ rest) (h, (l, hs)) = omega (arith, word_sum-lt rest hs)

pub checksum_partial-word_sum :
    (bytes : List ℕ) (n sum : ℕ)
    → IsBytes bytes
    → n ≤ length bytes
    → sum < 2 ^ 32
    → checksum_partial bytes n sum ≡ some ((sum + word_sum (take n bytes)) % 2 ^ 32)
unfolding checksum_partial word_sum
checksum_partial-word_sum bytes zero sum h hn hs = ap some (omega arith)
checksum_partial-word_sum [] (suc n) sum h hn hs = absurd (omega arith)
checksum_partial-word_sum (hi ∷ rest) (suc zero) sum h hn hs = ap some (omega arith)
checksum_partial-word_sum (hi ∷ []) (suc (suc n)) sum h hn hs = absurd (omega arith)
checksum_partial-word_sum (hi ∷ lo ∷ rest) (suc (suc n)) sum (h, (l, bs)) hn hs =
    rw (be16-number hi lo l) (
      checksum_partial-word_sum rest n ((sum + (hi * 256 + lo)) % 2 ^ 32) bs (omega arith)
        (omega arith)
      ∙ ap some (omega arith))

-- What a fold of the carry keeps.
pub record Folded (s r : ℕ) : Type 0 where
  pub small : r < 2 ^ 16
  pub same : r % 65535 ≡ s % 65535
  pub positive : 0 < s → 0 < r
  pub zero_kept : s ≡ 0 → r ≡ 0

low_half : (s : ℕ) → bit_and s 0xFFFF ≡ s % 2 ^ 16
low_half s = bit_and_mask 16 s

fold_done : (f s : ℕ) → s < 2 ^ 16 → fold_carry (suc f) s ≡ some s
unfolding fold_carry
fold_done f s h =
    if_elim (λ o. o ≡ some s) (s / 2 ^ 16 == 0) (λ e. refl)
      λ e. absurd (cc (e, (==_iff (s / 2 ^ 16) 0).1 (omega arith)))

fold_next : (f s : ℕ) → 2 ^ 16 ≤ s → fold_carry (suc f) s ≡ fold_carry f (s % 2 ^ 16 + s / 2 ^ 16)
unfolding fold_carry
fold_next f s h =
    if_elim (λ o. o ≡ fold_carry f (s % 2 ^ 16 + s / 2 ^ 16)) (s / 2 ^ 16 == 0)
      (λ e. absurd (omega (arith, (==_iff (s / 2 ^ 16) 0).0 e)))
      λ e. ap (λ k. fold_carry f (k + s / 2 ^ 16)) (low_half s)

Folded-next : (s r : ℕ) → 2 ^ 16 ≤ s → Folded (s % 2 ^ 16 + s / 2 ^ 16) r → Folded s r
Folded-next s r h k = record {
  small = k.small;
  same = omega (arith, k.same);
  positive = λ p. k.positive (omega arith);
  zero_kept = λ p. absurd (omega arith);
}

fold_end : (f s : ℕ) → s < 2 ^ 16 → (r : ℕ) × (fold_carry (suc f) s ≡ some r) × Folded s r
fold_end f s h =
    (s, fold_done f s h, record { small = h; same = refl; positive = λ p. p; zero_kept = λ p. p })

fold_more :
    (f s : ℕ)
    → 2 ^ 16 ≤ s
    → ((r : ℕ) × (fold_carry f (s % 2 ^ 16 + s / 2 ^ 16) ≡ some r)
        × Folded (s % 2 ^ 16 + s / 2 ^ 16) r)
    → (r : ℕ) × (fold_carry (suc f) s ≡ some r) × Folded s r
fold_more f s h (r, e, k) = (r, fold_next f s h ∙ e, Folded-next s r h k)

-- Two folds suffice for a sum of 32 bits.
pub fold_carry-Folded :
    (s : ℕ) → s < 2 ^ 32 → (r : ℕ) × (fold_carry fold_fuel s ≡ some r) × Folded s r
fold_carry-Folded s h = elim (le_or_lt (2 ^ 16) s) [
  | inr lt ↦ fold_end 2 s lt
  | inl le ↦ fold_more 2 s le (once (s % 2 ^ 16 + s / 2 ^ 16) (omega arith))
]
  where
    once : (t : ℕ) → t ≤ 131070 → (r : ℕ) × (fold_carry 2 t ≡ some r) × Folded t r
    once t ht = elim (le_or_lt (2 ^ 16) t) [
      | inr lt ↦ fold_end 1 t lt
      | inl le ↦ fold_more 1 t le (fold_end 0 (t % 2 ^ 16 + t / 2 ^ 16) (omega arith))
    ]

-- Whether a sum is that of words with a right checksum among them: a positive multiple of 65535.
abbrev pub is_ones_sum : ℕ → Bool
is_ones_sum s = not (s == 0) && s % 65535 == 0

ones_iff : (s r : ℕ) → Folded s r → (bit_and r 0xFFFF == 0xFFFF) ≡ is_ones_sum s
ones_iff s r k = rw (low_half r) (ground (arith, k.same, k.positive, k.zero_kept, k.small))

-- The fold and the comparison decide it.
pub is_all_ones_lem : (s : ℕ) → s < 2 ^ 32 → is_all_ones s ≡ some (is_ones_sum s)
unfolding is_all_ones
is_all_ones_lem s h = let (r, e, k) = fold_carry-Folded s h in rw e (ap some (ones_iff s r k))
