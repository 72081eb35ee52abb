-- ===== src/Format/Ipv4.antt =====
-- The text of ip_addr_to_str (src/c/ip_parser.c), read by parse_ipv4_word (src/c/capfilter.c and
-- src/c/dispfilter.c).
use my_wireshark.Base.{
  ℕ, ◌+◌, ◌-◌, ◌*◌, ◌/◌, ◌%◌, ◌≤◌, ◌<◌, ◌≡◌, refl, ap, ◌∙◌, List, [], ◌∷◌, ◌++◌, append_assoc,
  Option, none, some, arith, ltb, if_elim, length, length-append, ltb→lt, ltb→le,
}
use my_wireshark.Base.Text.{is_digit}
use my_wireshark.Cap.Node.{Addr}
use my_wireshark.Cap.Lexer.{digits_value, ipv4_loop, four_octets}
use my_wireshark.Cap.Lexer
use my_wireshark.Cap.Matches.{IsOctets}
use my_wireshark.Disp.Literal.{octets, addr_octets, parse_ipv4_word}
use my_wireshark.Format.{decimal, separated, ip_addr_str_len, ip_text, ip_addr_to_str}
use my_wireshark.Format.Digits.{snprintf-fits}

digit_step :
    (d v digits : ℕ) (rest out : List ℕ) (value : Option ℕ)
    → d < 10
    → digits_value value ≡ v
    → v * 10 + d ≤ 255
    → ipv4_loop ((b'0' + d) ∷ rest) out value digits
      ≡ ipv4_loop rest out (some (v * 10 + d)) (digits + 1)
unfolding ipv4_loop is_digit
digit_step d v digits rest out value h e k =
    let s : 48 + d - 48 ≡ d = omega arith in rw (e, s) (ground arith)

dot_step :
    (v digits : ℕ) (rest out : List ℕ)
    → v ≤ 255
    → length out ≤ 3
    → 0 < digits
    → ipv4_loop (b'.' ∷ rest) out (some v) digits ≡ ipv4_loop rest (out ++ v ∷ []) none 0
unfolding ipv4_loop is_digit
dot_step v digits rest out h k p = let m : v % 256 ≡ v = omega arith in rw (m) (ground arith)

-- The digits of an octet and the dot after them.
octet_steps :
    (b : ℕ) (rest out : List ℕ)
    → b < 256
    → length out ≤ 3
    → ipv4_loop (decimal b ++ b'.' ∷ rest) out none 0 ≡ ipv4_loop rest (out ++ b ∷ []) none 0
octet_steps b rest out h k =
    if_elim (λ (ds : List ℕ). ipv4_loop (ds ++ b'.' ∷ rest) out none 0 ≡ done) (ltb b 10)
      (λ e. one (ltb→lt b 10 e))
      (λ e.
        if_elim (λ (ds : List ℕ). ipv4_loop (ds ++ b'.' ∷ rest) out none 0 ≡ done) (ltb b 100)
          (λ e'. two (ltb→le b 10 e) (ltb→lt b 100 e')) (λ e'. three (ltb→le b 100 e')))
  where
    done : Option Addr
    done = ipv4_loop rest (out ++ b ∷ []) none 0

    finish :
        (v digits : ℕ) → v ≡ b → 0 < digits → ipv4_loop (b'.' ∷ rest) out (some v) digits ≡ done
    finish v digits e p = rw (e) (dot_step b digits rest out (omega arith) k p)

    one : b < 10 → ipv4_loop ((b'0' + b) ∷ b'.' ∷ rest) out none 0 ≡ done
    one l =
        digit_step b 0 0 (b'.' ∷ rest) out none l refl (omega arith)
        ∙ finish (0 * 10 + b) (0 + 1) (omega arith) (omega arith)

    two :
        10 ≤ b
        → b < 100
        → ipv4_loop ((b'0' + b / 10) ∷ (b'0' + b % 10) ∷ b'.' ∷ rest) out none 0 ≡ done
    two g l =
        digit_step (b / 10) 0 0 ((b'0' + b % 10) ∷ b'.' ∷ rest) out none (omega arith) refl
          (omega arith)
        ∙ digit_step (b % 10) (0 * 10 + b / 10) (0 + 1) (b'.' ∷ rest) out (some (0 * 10 + b / 10))
            (omega arith) refl (omega arith)
        ∙ finish ((0 * 10 + b / 10) * 10 + b % 10) (0 + 1 + 1) (omega arith) (omega arith)

    three :
        100 ≤ b
        → ipv4_loop
            ((b'0' + b / 100) ∷ (b'0' + b / 10 % 10) ∷ (b'0' + b % 10) ∷ b'.' ∷ rest)
            out
            none
            0
          ≡ done
    three g =
        digit_step (b / 100) 0 0 ((b'0' + b / 10 % 10) ∷ (b'0' + b % 10) ∷ b'.' ∷ rest) out none
          (omega arith) refl (omega arith)
        ∙ digit_step (b / 10 % 10) (0 * 10 + b / 100) (0 + 1) ((b'0' + b % 10) ∷ b'.' ∷ rest) out
            (some (0 * 10 + b / 100)) (omega arith) refl (omega arith)
        ∙ digit_step (b % 10) ((0 * 10 + b / 100) * 10 + b / 10 % 10) (0 + 1 + 1) (b'.' ∷ rest) out
            (some ((0 * 10 + b / 100) * 10 + b / 10 % 10)) (omega arith) refl (omega arith)
        ∙ finish (((0 * 10 + b / 100) * 10 + b / 10 % 10) * 10 + b % 10) (0 + 1 + 1 + 1)
            (omega arith) (omega arith)

length-decimal : (b : ℕ) → length (decimal b) ≤ 3
length-decimal b =
    if_elim (λ (ds : List ℕ). length ds ≤ 3) (ltb b 10) (λ _. omega arith)
      (λ _.
        if_elim (λ (ds : List ℕ). length ds ≤ 3) (ltb b 100) (λ _. omega arith) (λ _. omega arith))

ipv4_loop-octets : (a : Addr) → ipv4_loop [] (octets a) none 0 ≡ some a
unfolding ipv4_loop
ipv4_loop-octets a = refl

ipv4_loop-text :
    (a : Addr) → IsOctets a → ipv4_loop (ip_text (octets a) ++ b'.' ∷ []) [] none 0 ≡ some a
unfolding ip_text separated
ipv4_loop-text a (h₀, h₁, h₂, h₃) =
    let t : ip_text (octets a) ++ b'.' ∷ []
        ≡ decimal a.b0
          ++ b'.' ∷ (decimal a.b1 ++ b'.' ∷ (decimal a.b2 ++ b'.' ∷ (decimal a.b3 ++ b'.' ∷ []))) =
      simp append_assoc refl in
    ap (λ s. ipv4_loop s [] none 0) t
    ∙ octet_steps a.b0 (decimal a.b1 ++ b'.' ∷ (decimal a.b2 ++ b'.' ∷ (decimal a.b3 ++ b'.' ∷ [])))
        [] h₀ (omega arith)
    ∙ octet_steps a.b1 (decimal a.b2 ++ b'.' ∷ (decimal a.b3 ++ b'.' ∷ [])) (a.b0 ∷ []) h₁
        (omega arith)
    ∙ octet_steps a.b2 (decimal a.b3 ++ b'.' ∷ []) (a.b0 ∷ a.b1 ∷ []) h₂ (omega arith)
    ∙ octet_steps a.b3 [] (a.b0 ∷ a.b1 ∷ a.b2 ∷ []) h₃ (omega arith)
    ∙ ipv4_loop-octets a

length-ip_text : (a : Addr) → length (ip_text (octets a)) ≤ 15
unfolding ip_text separated
length-ip_text a = omega (
  arith,
  length-append (decimal a.b0)
      (b'.' ∷ (decimal a.b1 ++ b'.' ∷ (decimal a.b2 ++ b'.' ∷ decimal a.b3))),
  length-append (decimal a.b1) (b'.' ∷ (decimal a.b2 ++ b'.' ∷ decimal a.b3)),
  length-append (decimal a.b2) (b'.' ∷ decimal a.b3),
  length-decimal a.b0,
  length-decimal a.b1,
  length-decimal a.b2,
  length-decimal a.b3,
)

-- Of the four bytes of an address `ip_addr_to_str` writes the whole text with its NUL, uncut, and
-- `parse_ipv4_word` of both filter languages reads the address from that text.
pub ip_addr_to_str-parse_ipv4_word :
    (a : Addr)
    → IsOctets a
    → (ip_addr_to_str (octets a) ≡ ip_text (octets a) ++ 0 ∷ [])
      × (Lexer.parse_ipv4_word (ip_text (octets a)) ≡ some a)
      × (parse_ipv4_word (ip_text (octets a)) ≡ some (octets a))
unfolding ip_addr_to_str parse_ipv4_word Lexer.parse_ipv4_word
ip_addr_to_str-parse_ipv4_word a h = (
  snprintf-fits ip_addr_str_len (ip_text (octets a)) (omega (arith, length-ip_text a)),
  ipv4_loop-text a h,
  ap addr_octets (ipv4_loop-text a h),
)
