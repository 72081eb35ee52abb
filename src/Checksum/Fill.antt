-- ===== src/Checksum/Fill.antt =====
-- A checksum filled in as RFC 1071 says is accepted, and a change of one other word is noticed.
use my_wireshark.Base.{
  ℕ, zero, suc, ◌+◌, ◌-◌, ◌*◌, ◌%◌, ◌^◌, ◌≤◌, ◌<◌, ◌≡◌, ◌≢◌, sym, ap, ◌∙◌, true, false, List, [],
  ◌∷◌, ◌++◌, some, arith, length, IsBytes, length-append,
}
use my_wireshark.Checksum.{checksum_partial, checksum_verify, fold_carry, fold_fuel}
use my_wireshark.Checksum.Sum.{
  word_sum, word_sum-lt, checksum_partial-word_sum, is_ones_sum, Folded, fold_carry-Folded,
}
use my_wireshark.Checksum.Verify.{checksum_verify_lem, take_all, append-IsBytes}

-- The sum with the word `hi lo` at an even offset.
word_sum-splice :
    (k : ℕ) (before : List ℕ) (hi lo : ℕ) (after : List ℕ)
    → length before ≡ 2 * k
    → word_sum (before ++ hi ∷ lo ∷ after) ≡ word_sum before + word_sum after + (hi * 256 + lo)
unfolding word_sum
word_sum-splice k [] hi lo after e = omega arith
word_sum-splice k (x ∷ []) hi lo after e = absurd (omega arith)
word_sum-splice zero (x ∷ y ∷ before) hi lo after e = absurd (omega arith)
word_sum-splice (suc k) (x ∷ y ∷ before) hi lo after e =
    omega (arith, word_sum-splice k before hi lo after (omega arith))

ones_filled :
    (base c s r : ℕ) → Folded s r → s ≡ base → c ≡ 65535 - r → is_ones_sum (base + c) ≡ true
ones_filled base c s r kept e q =
    ground (arith, kept.same, kept.positive, kept.zero_kept, kept.small)

ones_changed :
    (base c c' : ℕ)
    → is_ones_sum (base + c) ≡ true
    → c % 65535 ≢ c' % 65535
    → is_ones_sum (base + c') ≡ false
ones_changed base c c' h ne = ground (arith, ne)

module _ (k : ℕ) (before after : List ℕ) where
  -- The bytes with the word `hi lo` after `before`.
  abbrev pub with_word : ℕ → ℕ → List ℕ
  with_word hi lo = before ++ hi ∷ lo ∷ after

  with_word-IsBytes :
      (hi lo : ℕ) → hi < 256 → lo < 256 → IsBytes before → IsBytes after → IsBytes (with_word hi lo)
  with_word-IsBytes hi lo h l hb ha = append-IsBytes before (hi ∷ lo ∷ after) hb (h, (l, ha))

  verify-with_word :
      (hi lo : ℕ)
      → hi < 256
      → lo < 256
      → IsBytes before
      → IsBytes after
      → length (with_word hi lo) ≤ 65535
      → checksum_verify (with_word hi lo) (length (with_word hi lo))
        ≡ some (is_ones_sum (word_sum (with_word hi lo)))
  verify-with_word hi lo h l hb ha hn =
      checksum_verify_lem (with_word hi lo) (length (with_word hi lo))
        (with_word-IsBytes hi lo h l hb ha) (omega arith) hn
      ∙ ap (λ t. some (is_ones_sum (word_sum t))) (take_all (with_word hi lo))

  -- If a 16-bit word at an even offset in at most 65535 bytes is the complement of the folded sum
  -- over the bytes with that word zero, `checksum_verify` accepts the bytes.
  pub checksum_verify-fill :
      (hi lo : ℕ) {s r : ℕ}
      → length before ≡ 2 * k
      → hi < 256
      → lo < 256
      → IsBytes before
      → IsBytes after
      → length before + length after ≤ 65533
      → checksum_partial (with_word 0 0) (length (with_word 0 0)) 0 ≡ some s
      → fold_carry fold_fuel s ≡ some r
      → hi * 256 + lo ≡ 65535 - r
      → checksum_verify (with_word hi lo) (length (with_word hi lo)) ≡ some true
  checksum_verify-fill hi lo {s} {r} ev h l hb ha hn sum fold c =
      let base = word_sum before + word_sum after in
      let zeros = with_word 0 0 in
      let whole = with_word-IsBytes 0 0 (omega arith) (omega arith) hb ha in
      let size = length-append before (0 ∷ 0 ∷ after) in
      let z = word_sum-splice k before 0 0 after ev in
      let total =
        checksum_partial-word_sum zeros (length zeros) 0 whole (omega arith) (omega arith)
        ∙ ap (λ t. some ((0 + word_sum t) % 2 ^ 32)) (take_all zeros) in
      let e₁ : s ≡ (0 + word_sum zeros) % 2 ^ 32 = cc (sum, total) in
      let small = word_sum-lt zeros whole in
      let e₂ : s ≡ base = omega (arith, e₁, z, small, size) in
      let (r', f, kept) = fold_carry-Folded s (omega arith) in
      let e₃ : r' ≡ r = cc (fold, f) in
      let ones = ones_filled base (hi * 256 + lo) s r' kept e₂ (omega (arith, c, e₃)) in
      verify-with_word hi lo h l hb ha (omega (arith, length-append before (hi ∷ lo ∷ after)))
      ∙ ap some (ap is_ones_sum (word_sum-splice k before hi lo after ev) ∙ ones)

  -- Of two words at the same even offset in at most 65535 bytes, if `checksum_verify` accepts the
  -- bytes with the one it refuses them with the other, unless the two are congruent modulo 65535.
  pub checksum_verify-change :
      (hi lo hi' lo' : ℕ)
      → length before ≡ 2 * k
      → hi < 256
      → lo < 256
      → hi' < 256
      → lo' < 256
      → IsBytes before
      → IsBytes after
      → length before + length after ≤ 65533
      → checksum_verify (with_word hi lo) (length (with_word hi lo)) ≡ some true
      → (hi * 256 + lo) % 65535 ≢ (hi' * 256 + lo') % 65535
      → checksum_verify (with_word hi' lo') (length (with_word hi' lo')) ≡ some false
  checksum_verify-change hi lo hi' lo' ev h l h' l' hb ha hn ok ne =
      let base = word_sum before + word_sum after in
      let first : is_ones_sum (base + (hi * 256 + lo)) ≡ true =
        ap is_ones_sum (sym (word_sum-splice k before hi lo after ev))
        ∙ cc (
          ok,
          verify-with_word hi lo h l hb ha (omega (arith, length-append before (hi ∷ lo ∷ after))),
        ) in
      verify-with_word hi' lo' h' l' hb ha (omega (arith, length-append before (hi' ∷ lo' ∷ after)))
      ∙ ap some (
          ap is_ones_sum (word_sum-splice k before hi' lo' after ev)
          ∙ ones_changed base (hi * 256 + lo) (hi' * 256 + lo') first ne)
