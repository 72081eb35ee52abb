-- ===== src/Eth/Wire.antt =====
-- The frames that `eth_parse` of src/c/eth_parser.c accepts, and what it gives of them.
use my_wireshark.Base.{
  ℕ, ◌+◌, ◌-◌, ◌≤◌, ◌<◌, ◌≡◌, refl, ap, ◌∙◌, take, true, false, List, some, arith, length,
  length-drop, drop, if_elim, ltb, ltb→lt, ◌==◌, ==_iff, sym, Bool, ◌⊎◌, inl, inr, ltb→le,
}
use my_wireshark.Wire.{Parse, accepted, word_at, WithPayload}
use my_wireshark.Wire.Reads.{Ensures, bind-Ensures, bytes_at-Ensures, word_at-Ensures}
use my_wireshark.Eth.{
  EthHeader, eth_header_len, eth_vlan_tag_len, eth_type_vlan, eth_type_part, eth_parse,
}

-- The length of a header on the wire.
abbrev pub header_size : EthHeader → ℕ
header_size h = elim h.has_vlan [ true ↦ 18 | false ↦ 14 ]

-- Where a tag stands, after the two addresses.
abbrev eth_tag_offset : ℕ
eth_tag_offset = 12

-- Whether the header has a tag, as the word after the addresses says: with one, its TCI is the
-- next word.
abbrev pub HasTag : List ℕ → EthHeader → Bool → Type 0
HasTag buffer h true =
    (word_at buffer eth_tag_offset ≡ accepted eth_type_vlan)
    × (word_at buffer (eth_tag_offset + 2) ≡ accepted h.vlan_tci)
HasTag buffer h false = ¬ (word_at buffer eth_tag_offset ≡ accepted eth_type_vlan)

-- A header with the addresses and the type of the frame, and a payload that is the rest of the
-- buffer after the header, up to the length given.
abbrev pub IsEthWindow : List ℕ → ℕ → WithPayload EthHeader → Type 0
IsEthWindow buffer len r =
    (r.header.dst_mac ≡ take 6 buffer)
    × (r.header.src_mac ≡ take 6 (drop 6 buffer))
    × (word_at buffer (header_size r.header - 2) ≡ accepted r.header.ether_type)
    × (r.payload ≡ drop (header_size r.header) buffer)
    × (header_size r.header + r.payload_len ≡ len)
    × (r.payload_len ≤ length r.payload)
    × HasTag buffer r.header r.header.has_vlan

-- Why a frame is refused: it has no room for the header, or for the tag it announces.
abbrev pub IsShort : List ℕ → ℕ → Type 0
IsShort buffer len =
    (len < eth_header_len)
    ⊎ ((len < eth_header_len + eth_vlan_tag_len) × (word_at buffer 12 ≡ accepted eth_type_vlan))

-- The header of a frame with two given addresses, and its length.
abbrev IsPart : List ℕ → ℕ → List ℕ → List ℕ → EthHeader × ℕ → Type 0
IsPart buffer len to from (h, n) =
    (n ≡ header_size h)
    × (n ≤ len)
    × (h.dst_mac ≡ to)
    × (h.src_mac ≡ from)
    × (word_at buffer (header_size h - 2) ≡ accepted h.ether_type)
    × HasTag buffer h h.has_vlan

word_same : {m n : ℕ} → accepted m ≡ accepted n → m ≡ n
word_same e = cc e

eth_type_part-Ensures :
    (buffer : List ℕ) (len : ℕ) (to from : List ℕ) (t : ℕ)
    → len ≤ length buffer
    → 14 ≤ len
    → word_at buffer 12 ≡ accepted t
    → Ensures (IsPart buffer len to from) (IsShort buffer len) (eth_type_part buffer len to from t)
unfolding eth_type_part
eth_type_part-Ensures buffer len to from t h h' e =
    if_elim P (t == eth_type_vlan)
      (λ q.
        let tag : word_at buffer 12 ≡ accepted eth_type_vlan =
          cc (e, (==_iff t eth_type_vlan).0 q) in
        if_elim P (ltb len 18) (λ s. inr (ltb→lt len 18 s, tag))
          λ s. word_at-Ensures _ _ buffer 14 _ (omega (arith, ltb→le len 18 s)) λ _ tci.
            word_at-Ensures _ _ buffer 16 _ (omega (arith, ltb→le len 18 s))
              λ _ q'. (refl, ltb→le len 18 s, refl, refl, q', (tag, tci)))
      λ q. (
        refl,
        h',
        refl,
        refl,
        e,
        λ tag. cc (q, (==_iff t eth_type_vlan).1 (word_same (sym e ∙ tag))),
      )
  where
    P : Parse (EthHeader × ℕ) → Type 0
    P = Ensures (IsPart buffer len to from) (IsShort buffer len)

-- `eth_parse` on a buffer of at least `len` bytes reads nothing outside the buffer. It gives the two
-- addresses and the type of the frame. It finds a tag exactly if the word after the addresses is
-- 0x8100; the TCI is then the word after that one, and the type the word after the TCI. The payload
-- starts after the header, its length is what is left of `len`, and it lies in the buffer. It refuses a
-- frame only if `len` has no room for the header, or for the tag that the header announces.
pub eth_parse-Ensures :
    (buffer : List ℕ) (len : ℕ)
    → len ≤ length buffer
    → Ensures (IsEthWindow buffer len) (IsShort buffer len) (eth_parse (some buffer) len true)
unfolding eth_parse
eth_parse-Ensures buffer len h =
    let P = IsEthWindow buffer len in
    let R = IsShort buffer len in
    if_elim (Ensures P R) (ltb len 14) (λ e. inl (ltb→lt len 14 e))
      λ e.
        let big = ltb→le len 14 e in
        bytes_at-Ensures P R buffer 0 6 _ (omega arith) λ to qt.
          bytes_at-Ensures P R buffer 6 6 _ (omega arith) λ from qf.
            word_at-Ensures P R buffer 12 _ (omega arith) λ t q.
              bind-Ensures P R (IsPart buffer len to from) _ _
                (eth_type_part-Ensures buffer len to from t h big q)
                λ p k. (
                  k.2 ∙ qt,
                  k.3 ∙ qf,
                  k.4,
                  ap (λ n. drop n buffer) k.0,
                  omega (arith, k),
                  omega (arith, k, length-drop p.1 buffer),
                  k.5,
                )
