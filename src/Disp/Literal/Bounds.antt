-- ===== src/Disp/Literal/Bounds.antt =====
-- The literals of src/c/dispfilter.c have as many bytes as the arrays that they are copied to.
use my_wireshark.Base.{
  ◌>>=◌, ℕ, zero, suc, ◌+◌, ◌-◌, ◌*◌, ◌≤◌, ◌≡◌, refl, not, ◌||◌, List, [], ◌∷◌, ◌++◌, Option, none,
  some, arith, ltb, ◌==◌, if_elim, ltb→le, length, length-append, replicate,
}
use my_wireshark.Base.Text.{span}
use my_wireshark.Cap.Node.{Addr}
use my_wireshark.Cap.Lexer
use my_wireshark.Disp.Literal.{
  hex_nibble, addr_octets, parse_ipv4_word, skip_colon, mac_groups, parse_mac_word, not_colon,
  hextet_value, after_group, parse_hextet_list, split_double, hextet_bytes, whole_hextets,
  joined_hextets, parse_sides, parse_ipv6_word,
}

-- Of a literal that is accepted, the number of its elements.
abbrev pub HasLength : (ℕ → Type 0) → Option (List ℕ) → Type 0
HasLength P none = Unit
HasLength P (some out) = P (length out)

bind-HasLength :
    {A : Type 0} (P : ℕ → Type 0) (o : Option A) (k : A → Option (List ℕ))
    → ((a : A) → HasLength P (k a))
    → HasLength P (o >>= k)
bind-HasLength P none k f = tt
bind-HasLength P (some a) k f = f a

cons-HasLength :
    (P : ℕ → Type 0) (x : ℕ) (o : Option (List ℕ))
    → HasLength (λ n. P (suc n)) o
    → HasLength P (o >>= λ out. some (x ∷ out))
cons-HasLength P x none h = tt
cons-HasLength P x (some out) h = h

mac_groups-length : (g : ℕ) (word : List ℕ) → HasLength (λ n. n ≡ g) (mac_groups g word)
unfolding mac_groups
mac_groups-length zero word = refl
mac_groups-length (suc g) [] = tt
mac_groups-length (suc g) (hi ∷ []) = tt
mac_groups-length (suc g) (hi ∷ lo ∷ word) =
    bind-HasLength (λ n. n ≡ suc g) (hex_nibble hi) _
      λ h.
        bind-HasLength (λ n. n ≡ suc g) (hex_nibble lo) _
          λ l.
            bind-HasLength (λ n. n ≡ suc g) (skip_colon g word) _
              λ word'.
                cons-HasLength (λ n. n ≡ suc g) _ (mac_groups g word')
                  (more word' (mac_groups g word') (mac_groups-length g word'))
  where
    more :
        (w : List ℕ) (o : Option (List ℕ))
        → HasLength (λ n. n ≡ g) o
        → HasLength (λ n. suc n ≡ suc g) o
    more w none h = tt
    more w (some out) h = omega arith

pub parse_mac_word-length : (word : List ℕ) → HasLength (λ n. n ≡ 6) (parse_mac_word word)
unfolding parse_mac_word
parse_mac_word-length word =
    if_elim (HasLength (λ n. n ≡ 6)) (not (length word == 17)) (λ _. tt)
      λ _. mac_groups-length 6 word

pub parse_ipv4_word-length : (word : List ℕ) → HasLength (λ n. n ≡ 4) (parse_ipv4_word word)
unfolding parse_ipv4_word
parse_ipv4_word-length word = go (Lexer.parse_ipv4_word word)
  where
    go : (o : Option Addr) → HasLength (λ n. n ≡ 4) (addr_octets o)
    go none = tt
    go (some a) = refl

parse_hextet_list-length :
    (room : ℕ) (s : List ℕ) → HasLength (λ n. n ≤ room) (parse_hextet_list room s)
unfolding parse_hextet_list
parse_hextet_list-length room [] = omega arith
parse_hextet_list-length zero (c ∷ s) = tt
parse_hextet_list-length (suc room) (c ∷ s) =
    let (group, rest) = span not_colon (c ∷ s) in
    if_elim (HasLength (λ n. n ≤ suc room)) (length group == 0 || ltb 4 (length group)) (λ _. tt)
      λ _.
        bind-HasLength (λ n. n ≤ suc room) (hextet_value 0 group) _
          λ val.
            bind-HasLength (λ n. n ≤ suc room) (after_group rest) _
              λ rest'.
                cons-HasLength (λ n. n ≤ suc room) _ (parse_hextet_list room rest')
                  (more (parse_hextet_list room rest') (parse_hextet_list-length room rest'))
  where
    more : (o : Option (List ℕ)) → HasLength (λ n. n ≤ room) o → HasLength (λ n. suc n ≤ suc room) o
    more none h = tt
    more (some out) h = omega arith

length-hextet_bytes : (vs : List ℕ) → length (hextet_bytes vs) ≡ 2 * length vs
length-hextet_bytes [] = omega arith
length-hextet_bytes (v ∷ vs) = omega (arith, length-hextet_bytes vs)

length-replicate : (n x : ℕ) → length (replicate n x) ≡ n
length-replicate zero x = refl
length-replicate (suc n) x = omega (arith, length-replicate n x)

joined_hextets-length : (left right : List ℕ) → HasLength (λ n. n ≡ 16) (joined_hextets left right)
joined_hextets-length left right =
    let zeros : List ℕ = replicate (8 - (length left + length right)) 0 in
    if_elim (HasLength (λ n. n ≡ 16)) (ltb 7 (length left + length right)) (λ _. tt)
      λ e. omega (
        arith,
        ltb→le 7 (length left + length right) e,
        length-append (hextet_bytes left) (hextet_bytes zeros ++ hextet_bytes right),
        length-append (hextet_bytes zeros) (hextet_bytes right),
        length-hextet_bytes left,
        length-hextet_bytes right,
        length-hextet_bytes zeros,
        length-replicate (8 - (length left + length right)) 0,
      )

whole_hextets-length : (left : List ℕ) → HasLength (λ n. n ≡ 16) (whole_hextets left)
whole_hextets-length left =
    if_elim (HasLength (λ n. n ≡ 16)) (not (length left == 8)) (λ _. tt)
      λ e. ground (arith, length-hextet_bytes left, e)

parse_sides-length :
    (word : List ℕ) (sides : Option (List ℕ × List ℕ))
    → HasLength (λ n. n ≡ 16) (parse_sides word sides)
unfolding parse_sides
parse_sides-length word none =
    bind-HasLength (λ n. n ≡ 16) (parse_hextet_list 8 word) _ whole_hextets-length
parse_sides-length word (some (before, after)) =
    bind-HasLength (λ n. n ≡ 16) (parse_hextet_list 8 before) _
      λ left.
        bind-HasLength (λ n. n ≡ 16) (parse_hextet_list 8 after) _ (joined_hextets-length left)

pub parse_ipv6_word-length : (word : List ℕ) → HasLength (λ n. n ≡ 16) (parse_ipv6_word word)
unfolding parse_ipv6_word
parse_ipv6_word-length word = parse_sides-length word (split_double word)
