-- ===== src/Base/Text.antt =====
-- C strings as the lists of their bytes, and the character tests that the lexers use.
use Prim.Native.Nat.{ℕ, ◌+◌, ◌-◌, ◌*◌, ◌^◌, ◌≤◌, min}
use mathlib.Core.Path.{◌≡◌}
use native.Mathlib.Omega.{arith}
use my_wireshark.Base.Lists.{length}
use Prim.Native.Char.{code}
use Prim.Native.String.{String}
use mathlib.Core.Bool.{Bool, true, false, ◌&&◌, ◌||◌}
use mathlib.Core.List.{List, [], ◌∷◌}
use my_wireshark.Base.Tests.{leb, ◌==◌, if◌then◌else◌}

-- The bytes of a literal.
abbrev pub codes : String → List ℕ
codes String.[] = []
codes (String.◌∷◌ c s) = code c ∷ codes s

unfoldable pub is_space : ℕ → Bool
is_space ch = ch == b' ' || ch == 9 || ch == 10 || ch == 13

unfoldable pub is_digit : ℕ → Bool
is_digit ch = leb b'0' ch && leb ch b'9'

unfoldable pub is_letter : ℕ → Bool
is_letter ch = (leb b'a' ch && leb ch b'z') || (leb b'A' ch && leb ch b'Z')

-- Two byte strings of one length and the same bytes: the test by `strlen` and `strncmp`.
unfoldable pub same_bytes : List ℕ → List ℕ → Bool
same_bytes [] [] = true
same_bytes (x ∷ xs) (y ∷ ys) = x == y && same_bytes xs ys
same_bytes _ _ = false

-- The bytes before the first zero: what is read of an array as a C string, or by `c_str`.
unfoldable pub c_str : List ℕ → List ℕ
c_str [] = []
c_str (x ∷ xs) = let rest = c_str xs in if x == 0 then [] else x ∷ rest

-- The longest prefix of bytes that pass a test, and what follows it.
unfoldable pub span : (ℕ → Bool) → List ℕ → List ℕ × List ℕ
span p [] = ([], [])
span p (x ∷ xs) =
    let (word, rest) = span p xs in elim (p x) [ true ↦ (x ∷ word, rest) | false ↦ ([], x ∷ xs) ]

abbrev decimal : ℕ → List ℕ → ℕ
decimal acc [] = acc
decimal acc (x ∷ xs) = decimal (acc * 10 + (x - b'0')) xs

-- `strtoul(word, NULL, 10)` on a word of digits, with a 64-bit `unsigned long`.
unfoldable pub strtoul : List ℕ → ℕ
strtoul word = min (decimal 0 word) (2 ^ 64 - 1)

pub length-span_rest : (p : ℕ → Bool) (xs : List ℕ) → length (span p xs).1 ≤ length xs
unfolding span
length-span_rest p [] = omega arith
length-span_rest p (x ∷ xs) = ground (arith, length-span_rest p xs)

-- A first byte that passes is not left over.
pub length-span_cons :
    (p : ℕ → Bool) (x : ℕ) (xs : List ℕ) → p x ≡ true → length (span p (x ∷ xs)).1 ≤ length xs
unfolding span
length-span_cons p x xs h = ground (arith, length-span_rest p xs)
