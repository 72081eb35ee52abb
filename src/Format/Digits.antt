-- ===== src/Format/Digits.antt =====
-- The digits that the formats write, read back.
use my_wireshark.Base.{
  ℕ, zero, suc, ◌+◌, ◌-◌, ◌*◌, ◌/◌, ◌%◌, ◌^◌, bit_or, ◌≤◌, ◌<◌, ◌≡◌, refl, ap, ◌∙◌, Bool, true,
  false, List, [], ◌∷◌, ◌++◌, Option, none, some, arith, ltb, ◌==◌, ==_iff, if_elim, every,
  every-lt, length, take, ltb→lt,
}
use my_wireshark.Base.Bits.{bit_or_fields}
use my_wireshark.Disp.Literal.{hex_nibble, not_colon, hextet_value}
use my_wireshark.Format.{hex_digit, hex, snprintf}

abbrev is_value : ℕ → Option ℕ → Bool
is_value d none = false
is_value d (some n) = n == d

is_value-eq : (d : ℕ) (o : Option ℕ) → is_value d o ≡ true → o ≡ some d
is_value-eq d none e = cc
is_value-eq d (some n) e = ap some ((==_iff n d).0 e)

pub hex_nibble-hex_digit : (d : ℕ) → d < 16 → hex_nibble (hex_digit d) ≡ some d
unfolding hex_nibble every
hex_nibble-hex_digit d h =
    is_value-eq d (hex_nibble (hex_digit d))
      (every-lt (λ k. is_value k (hex_nibble (hex_digit k))) 16 d h refl)

pub hex_digit-not_colon : (d : ℕ) → d < 16 → not_colon (hex_digit d) ≡ true
hex_digit-not_colon d h = ground arith

-- A nibble put after `val`.
hextet_value-digit :
    (val d : ℕ) (group : List ℕ)
    → val < 2 ^ 12
    → d < 16
    → hextet_value val (hex_digit d ∷ group) ≡ hextet_value (val * 16 + d) group
unfolding hextet_value
hextet_value-digit val d group h k =
    let e : bit_or (val * 2 ^ 4) d % 2 ^ 16 ≡ val * 16 + d =
      omega (arith, bit_or_fields 4 val d (omega arith)) in
    rw (hex_nibble-hex_digit d k, e)

two_digits :
    (val a b : ℕ)
    → val < 2 ^ 8
    → a < 16
    → b < 16
    → hextet_value val (hex_digit a ∷ hex_digit b ∷ []) ≡ some ((val * 16 + a) * 16 + b)
unfolding hextet_value
two_digits val a b h ka kb =
    hextet_value-digit val a (hex_digit b ∷ []) (omega arith) ka
    ∙ hextet_value-digit (val * 16 + a) b [] (omega arith) kb

-- A group of the digits of a number has the number as its value.
pub hextet_value-hex : (v : ℕ) → v < 2 ^ 16 → hextet_value 0 (hex v) ≡ some v
unfolding hextet_value
hextet_value-hex v h =
    if_elim (λ (ds : List ℕ). hextet_value 0 ds ≡ some v) (ltb v 16) (λ e. one (ltb→lt v 16 e))
      (λ _.
        if_elim (λ (ds : List ℕ). hextet_value 0 ds ≡ some v) (ltb v 256)
          (λ e. two (ltb→lt v 256 e))
          (λ _.
            if_elim (λ (ds : List ℕ). hextet_value 0 ds ≡ some v) (ltb v 4096)
              (λ e. three (ltb→lt v 4096 e)) (λ _. four)))
  where
    value : (x : ℕ) → x ≡ v → ◌≡◌ {A = Option ℕ} (some x) (some v)
    value x e = ap some e

    one : v < 16 → hextet_value 0 (hex_digit v ∷ []) ≡ some v
    one k = hextet_value-digit 0 v [] (omega arith) k ∙ value (0 * 16 + v) (omega arith)

    two : v < 256 → hextet_value 0 (hex_digit (v / 16) ∷ hex_digit (v % 16) ∷ []) ≡ some v
    two k =
        two_digits 0 (v / 16) (v % 16) (omega arith) (omega arith) (omega arith)
        ∙ value ((0 * 16 + v / 16) * 16 + v % 16) (omega arith)

    three :
        v < 4096
        → hextet_value 0 (hex_digit (v / 256) ∷ hex_digit (v / 16 % 16) ∷ hex_digit (v % 16) ∷ [])
          ≡ some v
    three k =
        hextet_value-digit 0 (v / 256) (hex_digit (v / 16 % 16) ∷ hex_digit (v % 16) ∷ [])
          (omega arith) (omega arith)
        ∙ two_digits (0 * 16 + v / 256) (v / 16 % 16) (v % 16) (omega arith) (omega arith)
            (omega arith)
        ∙ value (((0 * 16 + v / 256) * 16 + v / 16 % 16) * 16 + v % 16) (omega arith)

    four :
        hextet_value 0 (
          hex_digit (v / 4096)
          ∷ hex_digit (v / 256 % 16)
          ∷ hex_digit (v / 16 % 16)
          ∷ hex_digit (v % 16)
          ∷ [])
        ≡ some v
    four =
        two_digits_first
        ∙ two_digits ((0 * 16 + v / 4096) * 16 + v / 256 % 16) (v / 16 % 16) (v % 16) (omega arith)
            (omega arith) (omega arith)
        ∙ value ((((0 * 16 + v / 4096) * 16 + v / 256 % 16) * 16 + v / 16 % 16) * 16 + v % 16)
            (omega arith)
      where
        rest : List ℕ
        rest = hex_digit (v / 16 % 16) ∷ hex_digit (v % 16) ∷ []

        two_digits_first :
            hextet_value 0 (hex_digit (v / 4096) ∷ hex_digit (v / 256 % 16) ∷ rest)
            ≡ hextet_value ((0 * 16 + v / 4096) * 16 + v / 256 % 16) rest
        two_digits_first =
            hextet_value-digit 0 (v / 4096) (hex_digit (v / 256 % 16) ∷ rest) (omega arith)
              (omega arith)
            ∙ hextet_value-digit (0 * 16 + v / 4096) (v / 256 % 16) rest (omega arith) (omega arith)

take-long : (n : ℕ) (xs : List ℕ) → length xs ≤ n → take n xs ≡ xs
take-long zero [] h = refl
take-long zero (x ∷ xs) h = absurd (omega arith)
take-long (suc n) [] h = refl
take-long (suc n) (x ∷ xs) h = ap (◌∷◌ x) (take-long n xs (omega arith))

-- A text that the array has room for is not cut.
pub snprintf-fits :
    (size : ℕ) (text : List ℕ) → length text < size → snprintf size text ≡ text ++ 0 ∷ []
snprintf-fits size text h = ap (λ t. t ++ 0 ∷ []) (take-long (size - 1) text (omega arith))
