-- ===== src/Checksum/Tests.antt =====
-- An IPv4 header and a UDP segment for src/c/checksum.c, and its theorems applied to them.
use my_wireshark.Base.{
  ℕ, ◌+◌, ◌*◌, ◌%◌, ◌≡◌, ◌≢◌, refl, true, false, List, [], ◌∷◌, ◌++◌, some, arith, take, IsBytes,
  all_test, IsBytes-test,
}
use my_wireshark.Checksum.{be16, checksum_partial, fold_carry, fold_fuel, checksum_verify}
use my_wireshark.Checksum.Sum.{word_sum, is_ones_sum}
use my_wireshark.Checksum.Verify.{checksum_verify_lem}
use my_wireshark.Checksum.Fill.{with_word, checksum_verify-fill, checksum_verify-change}

abbrev before : List ℕ
before = 0x45 ∷ 0 ∷ 0 ∷ 0x73 ∷ 0 ∷ 0 ∷ 0x40 ∷ 0 ∷ 0x40 ∷ 0x11 ∷ []

abbrev after : List ℕ
after = 0xc0 ∷ 0xa8 ∷ 0 ∷ 1 ∷ 0xc0 ∷ 0xa8 ∷ 0 ∷ 0xc7 ∷ []

abbrev header : List ℕ
header = before ++ 0xb8 ∷ 0x61 ∷ after

abbrev segment : List ℕ
segment = 0x12 ∷ 0x34 ∷ 0 ∷ 53 ∷ 0 ∷ 9 ∷ 0 ∷ 0 ∷ 7 ∷ []

abbrev home : List ℕ
home = 192 ∷ 168 ∷ 0 ∷ 1 ∷ []

abbrev home6 : List ℕ
home6 = 0xfe ∷ 0x80 ∷ 0 ∷ 0 ∷ 0 ∷ 0 ∷ 0 ∷ 0 ∷ 0 ∷ 0 ∷ 0 ∷ 0 ∷ 0 ∷ 0 ∷ 0 ∷ 1 ∷ []

header-IsBytes : IsBytes header
unfolding all_test
header-IsBytes = IsBytes-test header refl

before-IsBytes : IsBytes before
unfolding all_test
before-IsBytes = IsBytes-test before refl

after-IsBytes : IsBytes after
unfolding all_test
after-IsBytes = IsBytes-test after refl

segment-IsBytes : IsBytes segment
unfolding all_test
segment-IsBytes = IsBytes-test segment refl

home-IsBytes : IsBytes home
unfolding all_test
home-IsBytes = IsBytes-test home refl

home6-IsBytes : IsBytes home6
unfolding all_test
home6-IsBytes = IsBytes-test home6 refl

accepts : checksum_verify header 20 ≡ some true
unfolding checksum_verify be16 fold_carry
accepts = refl

checksum_verify_lem_example :
    checksum_verify header 19 ≡ some (is_ones_sum (word_sum (take 19 header)))
checksum_verify_lem_example =
    checksum_verify_lem header 19 header-IsBytes (omega arith) (omega arith)

sum_zero : checksum_partial (with_word 5 before after 0 0) 20 0 ≡ some 0x2479c
unfolding checksum_partial
sum_zero = refl

fold_zero : fold_carry fold_fuel 0x2479c ≡ some 0x479e
unfolding fold_carry
fold_zero = refl

checksum_verify-fill_example : checksum_verify header 20 ≡ some true
checksum_verify-fill_example =
    checksum_verify-fill 5 before after 0xb8 0x61 refl (omega arith) (omega arith) before-IsBytes
      after-IsBytes (omega arith) sum_zero fold_zero refl

other_word : (0xb8 * 256 + 0x61) % 65535 ≢ (0xb8 * 256 + 0x60) % 65535
other_word = ground arith

checksum_verify-change_example :
    checksum_verify (with_word 5 before after 0xb8 0x60) 20 ≡ some false
checksum_verify-change_example =
    checksum_verify-change 5 before after 0xb8 0x61 0xb8 0x60 refl (omega arith) (omega arith)
      (omega arith) (omega arith) before-IsBytes after-IsBytes (omega arith) accepts other_word
