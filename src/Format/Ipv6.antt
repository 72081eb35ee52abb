-- ===== src/Format/Ipv6.antt =====
-- The text of ipv6_addr_to_str (src/c/ipv6_parser.c), read by parse_ipv6_word (src/c/dispfilter.c).
use my_wireshark.Base.{
  ℕ, zero, suc, ◌-◌, ◌*◌, ◌/◌, ◌%◌, ◌^◌, bit_and, ◌≤◌, ◌<◌, ◌≡◌, refl, sym, ap, ◌∙◌, true, List, [],
  ◌∷◌, ◌++◌, none, some, arith, length, length-append, append-nil, all_test, All, IsBytes,
}
use my_wireshark.Base.Bits.{bit_and_mask}
use my_wireshark.Checksum.{be16}
use my_wireshark.Checksum.Sum.{be16-number}
use my_wireshark.Disp.Literal.{
  not_colon, parse_hextet_list, split_double, hextet_bytes, whole_hextets, parse_sides,
  parse_ipv6_word,
}
use my_wireshark.Format.{hex, separated, ipv6_addr_str_len, hextets, ipv6_text, ipv6_addr_to_str}
use my_wireshark.Format.Digits.{snprintf-fits}
use my_wireshark.Format.Groups.{
  IsGroup, hex-IsGroup, parse_hextet_list-more, parse_hextet_list-last, split_double-skip,
}

abbrev IsHextets : List ℕ → Type 0
IsHextets vs = All (λ (v : ℕ). v < 2 ^ 16) vs

hextets-IsHextets : (a : List ℕ) → IsBytes a → IsHextets (hextets a)
unfolding hextets
hextets-IsHextets [] h = tt
hextets-IsHextets (hi ∷ []) h = tt
hextets-IsHextets (hi ∷ lo ∷ a) (p, (q, h)) =
    (omega (arith, be16-number hi lo q, p), hextets-IsHextets a h)

hextet_bytes-hextets :
    (n : ℕ) (a : List ℕ) → IsBytes a → length a ≡ 2 * n → hextet_bytes (hextets a) ≡ a
unfolding hextets
hextet_bytes-hextets n [] h e = refl
hextet_bytes-hextets n (hi ∷ []) h e = absurd (omega arith)
hextet_bytes-hextets zero (hi ∷ lo ∷ a) h e = absurd (omega arith)
hextet_bytes-hextets (suc n) (hi ∷ lo ∷ a) (p, (q, h)) e =
    let high : be16 hi lo / 2 ^ 8 % 2 ^ 8 ≡ hi = omega (arith, be16-number hi lo q) in
    let low : bit_and (be16 hi lo) 0xFF ≡ lo =
      omega (arith, be16-number hi lo q, bit_and_mask 8 (be16 hi lo)) in
    rw (high, low, hextet_bytes-hextets n a h (omega arith)) refl

length-hextets : (n : ℕ) (a : List ℕ) → length a ≡ 2 * n → length (hextets a) ≡ n
unfolding hextets
length-hextets n [] e = omega arith
length-hextets n (hi ∷ []) e = absurd (omega arith)
length-hextets zero (hi ∷ lo ∷ a) e = absurd (omega arith)
length-hextets (suc n) (hi ∷ lo ∷ a) e = omega (arith, length-hextets n a (omega arith))

abbrev groups_text : List ℕ → List ℕ
groups_text vs = separated b':' hex vs

no_colon_first : (c : ℕ) (s : List ℕ) → all_test not_colon (c ∷ s) ≡ true → not_colon c ≡ true
unfolding all_test
no_colon_first c s h = ground arith

-- The text of a first group is not empty.
groups_text-cons :
    (v : ℕ) (vs : List ℕ)
    → v < 2 ^ 16
    → (c : ℕ) × (s : List ℕ) × (groups_text (v ∷ vs) ≡ c ∷ s) × (not_colon c ≡ true)
unfolding separated
groups_text-cons v [] h = shape (hex v) (hex-IsGroup v h)
  where
    shape :
        (ds : List ℕ) → IsGroup v ds → (c : ℕ) × (s : List ℕ) × (ds ≡ c ∷ s) × (not_colon c ≡ true)
    shape [] g = absurd (omega (arith, g.some_digits))
    shape (c ∷ s) g = (c, s, refl, no_colon_first c s g.no_colon)
groups_text-cons v (w ∷ vs) h = shape (hex v) (hex-IsGroup v h)
  where
    shape :
        (ds : List ℕ)
        → IsGroup v ds
        → (c : ℕ) × (s : List ℕ) × (ds ++ b':' ∷ groups_text (w ∷ vs) ≡ c ∷ s)
          × (not_colon c ≡ true)
    shape [] g = absurd (omega (arith, g.some_digits))
    shape (c ∷ s) g = (c, _, refl, no_colon_first c s g.no_colon)

parse_hextet_list-empty : (room : ℕ) → parse_hextet_list room [] ≡ some []
unfolding parse_hextet_list
parse_hextet_list-empty room = refl

parse_hextet_list-groups_text :
    (room : ℕ) (vs : List ℕ)
    → IsHextets vs
    → length vs ≤ room
    → parse_hextet_list room (groups_text vs) ≡ some vs
unfolding separated
parse_hextet_list-groups_text room [] h k = parse_hextet_list-empty room
parse_hextet_list-groups_text zero (v ∷ vs) h k = absurd (omega arith)
parse_hextet_list-groups_text (suc room) (v ∷ []) (h, _) k =
    parse_hextet_list-last room v (hex v) (hex-IsGroup v h)
parse_hextet_list-groups_text (suc room) (v ∷ w ∷ vs) (h, hs) k =
    let (c, s, e, _) = groups_text-cons w vs hs.0 in
    let later = parse_hextet_list-groups_text room (w ∷ vs) hs (omega arith) in
    rw (e) (parse_hextet_list-more room v (hex v) c s (hex-IsGroup v h) ∙ rw (sym e, later) refl)

-- A colon before other text does not begin a "::".
split_double-colon :
    (c : ℕ) (s : List ℕ)
    → not_colon c ≡ true
    → split_double (c ∷ s) ≡ none
    → split_double (b':' ∷ c ∷ s) ≡ none
unfolding split_double
split_double-colon c s h e = ground (arith, e)

split_double-groups_text : (vs : List ℕ) → IsHextets vs → split_double (groups_text vs) ≡ none
unfolding separated split_double
split_double-groups_text [] h = refl
split_double-groups_text (v ∷ []) (h, _) =
    ap split_double (sym (append-nil (hex v)))
    ∙ split_double-skip (hex v) [] (hex-IsGroup v h).no_colon refl
split_double-groups_text (v ∷ w ∷ vs) (h, hs) =
    let (c, s, e, nc) = groups_text-cons w vs hs.0 in
    let later = split_double-groups_text (w ∷ vs) hs in
    split_double-skip (hex v) (b':' ∷ groups_text (w ∷ vs)) (hex-IsGroup v h).no_colon
      (rw (e) (split_double-colon c s nc (sym (ap split_double e) ∙ later)))

length-groups_text : (vs : List ℕ) → IsHextets vs → length (groups_text vs) ≤ 5 * length vs - 1
unfolding separated
length-groups_text [] h = omega arith
length-groups_text (v ∷ []) (h, _) = omega (arith, (hex-IsGroup v h).few)
length-groups_text (v ∷ w ∷ vs) (h, hs) = omega (
  arith,
  (hex-IsGroup v h).few,
  length-groups_text (w ∷ vs) hs,
  length-append (hex v) (b':' ∷ groups_text (w ∷ vs)),
)

-- A literal without a "::".
parse_ipv6_word-whole :
    (word left : List ℕ)
    → split_double word ≡ none
    → parse_hextet_list 8 word ≡ some left
    → parse_ipv6_word word ≡ whole_hextets left
unfolding parse_ipv6_word parse_sides
parse_ipv6_word-whole word left e e' = rw (e, e') refl

-- Of the sixteen bytes of an address `ipv6_addr_to_str` writes the whole text with its NUL, uncut,
-- and `parse_ipv6_word` of the display filter reads the address from that text.
pub ipv6_addr_to_str-parse_ipv6_word :
    (a : List ℕ)
    → IsBytes a
    → length a ≡ 16
    → (ipv6_addr_to_str a ≡ ipv6_text a ++ 0 ∷ []) × (parse_ipv6_word (ipv6_text a) ≡ some a)
unfolding ipv6_addr_to_str ipv6_text parse_ipv6_word
ipv6_addr_to_str-parse_ipv6_word a h e =
    let hs = hextets-IsHextets a h in
    let n : length (hextets a) ≡ 8 = length-hextets 8 a e in
    (
      snprintf-fits ipv6_addr_str_len (groups_text (hextets a))
          (omega (arith, n, length-groups_text (hextets a) hs)),
      parse_ipv6_word-whole (groups_text (hextets a)) (hextets a)
            (split_double-groups_text (hextets a) hs)
            (parse_hextet_list-groups_text 8 (hextets a) hs (omega (arith, n)))
          ∙ rw (n, hextet_bytes-hextets 8 a h e) refl,
    )
