-- ===== src/Transport/Wire.antt =====
-- What the parsers of src/c/tcp_udp_parser.c accept, and that they read nothing outside the segment.
use my_wireshark.Base.{
  ℕ, ◌+◌, ◌-◌, ◌*◌, ◌/◌, ◌^◌, ◌≤◌, ◌<◌, ◌≡◌, refl, true, false, List, some, arith, length,
  length-drop, drop, if_elim, ltb, ltb→lt, ltb→le, ◌||◌, ◌⊎◌, inl, inr,
}
use my_wireshark.Wire.{Parse, accepted, ◌>>=◌, byte_at, WithPayload, with_payload}
use my_wireshark.Wire.Reads.{
  Ensures, bind-Ensures, byte_at-Ensures, word_at-Ensures, IsWindow, IsWindow-within,
}
use my_wireshark.Transport.{
  TcpHeader, UdpHeader, long_at, tcp_fields, tcp_parse, udp_parse, tcp_header_min_len,
  udp_header_len,
}

module _ (buffer : List ℕ) (len : ℕ) (inside : len ≤ length buffer) where
  -- A payload of all that is left of `len` after 8 bytes.
  abbrev pub IsUdp : WithPayload UdpHeader → Type 0
  IsUdp r =
      IsWindow (λ (_ : UdpHeader). udp_header_len) buffer len r
      × (udp_header_len + r.payload_len ≡ len)

  -- A header of at least 5 words, and a payload of all that is left of `len` after it.
  abbrev pub IsTcp : WithPayload TcpHeader → Type 0
  IsTcp r =
      IsWindow (λ (h : TcpHeader). h.data_offset * 4) buffer len r
      × (r.header.data_offset * 4 + r.payload_len ≡ len)
      × (5 ≤ r.header.data_offset)

  -- `udp_parse` on a buffer of at least `len` bytes reads nothing outside the buffer, gives as
  -- payload all that is left of `len` after 8 bytes, and refuses only fewer than 8 bytes.
  pub udp_parse-Ensures : Ensures IsUdp (len < udp_header_len) (udp_parse (some buffer) len true)
  unfolding udp_parse
  udp_parse-Ensures =
      if_elim (Ensures P (len < 8)) (ltb len 8) (λ e. ltb→lt len 8 e)
        λ e.
          let big = ltb→le len 8 e in
          word_at-Ensures P (len < 8) buffer 0 _ (omega arith) λ a _.
            word_at-Ensures P (len < 8) buffer 2 _ (omega arith) λ b _.
              word_at-Ensures P (len < 8) buffer 4 _ (omega arith) λ c _.
                word_at-Ensures P (len < 8) buffer 6 _ (omega arith)
                  λ d _. ((refl, omega arith, omega (arith, length-drop 8 buffer)), omega arith)
    where
      P : WithPayload UdpHeader → Type 0
      P = IsUdp

  long_at-Ensures :
      (P : TcpHeader → Type 0) (R : Type 0) (i : ℕ) (k : ℕ → Parse TcpHeader)
      → i + 3 < length buffer
      → ((v : ℕ) → Ensures P R (k v))
      → Ensures P R (long_at buffer i >>= k)
  unfolding long_at
  long_at-Ensures P R i k h f =
      bind-Ensures P R (λ _. Unit) (long_at buffer i) k
        (byte_at-Ensures Any R buffer i _ (omega arith) λ a _.
          byte_at-Ensures Any R buffer (i + 1) _ (omega arith) λ b _.
            byte_at-Ensures Any R buffer (i + 2) _ (omega arith)
              λ c _. byte_at-Ensures Any R buffer (i + 3) _ (omega arith) λ d _. tt)
        λ v _. f v
    where
      Any : ℕ → Type 0
      Any _ = Unit

  tcp_fields-Ensures :
      (R : Type 0) (words : ℕ)
      → 20 ≤ len
      → Ensures (λ (h : TcpHeader). h.data_offset ≡ words) R (tcp_fields buffer words)
  unfolding tcp_fields
  tcp_fields-Ensures R words big = word_at-Ensures P R buffer 0 _ (omega arith) λ _ _.
      word_at-Ensures P R buffer 2 _ (omega arith) λ _ _. long_at-Ensures P R 4 _ (omega arith) λ _.
        long_at-Ensures P R 8 _ (omega arith) λ _.
          byte_at-Ensures P R buffer 13 _ (omega arith) λ _ _.
            word_at-Ensures P R buffer 14 _ (omega arith) λ _ _.
              word_at-Ensures P R buffer 16 _ (omega arith)
                λ _ _. word_at-Ensures P R buffer 18 _ (omega arith) λ _ _. refl
    where
      P : TcpHeader → Type 0
      P h = h.data_offset ≡ words

  -- Why a segment is refused: fewer than 20 bytes, or a data offset below 5 words or past `len`.
  abbrev pub IsTcpMalformed : Type 0
  IsTcpMalformed =
      (len < tcp_header_min_len)
      ⊎ ((v : ℕ) × (byte_at buffer 12 ≡ accepted v) × ((v / 16 < 5) ⊎ (len < v / 16 * 4)))

  -- `tcp_parse` on a buffer of at least `len` bytes reads nothing outside the buffer. It gives a
  -- header of at least 5 words and as payload all that is left of `len` after it. It refuses only
  -- fewer than 20 bytes, or a data offset below 5 words or past `len`.
  pub tcp_parse-Ensures : Ensures IsTcp IsTcpMalformed (tcp_parse (some buffer) len true)
  unfolding tcp_parse
  tcp_parse-Ensures =
      if_elim (Ensures P IsTcpMalformed) (ltb len 20) (λ e. inl (ltb→lt len 20 e))
        λ e. byte_at-Ensures P IsTcpMalformed buffer 12 _ (omega (arith, ltb→le len 20 e)) λ v q.
          if_elim (Ensures P IsTcpMalformed) (ltb (v / 2 ^ 4) 5 || ltb len (v / 2 ^ 4 * 4))
            (λ b. inr (v, q, either v b))
            λ b.
              bind-Ensures P IsTcpMalformed (λ (h : TcpHeader). h.data_offset ≡ v / 2 ^ 4) _ _
                (tcp_fields-Ensures IsTcpMalformed (v / 2 ^ 4) (ltb→le len 20 e))
                λ h s. ends (v / 2 ^ 4) h s (neither v b)
    where
      P : WithPayload TcpHeader → Type 0
      P = IsTcp

      ends :
          (words : ℕ) (h : TcpHeader)
          → h.data_offset ≡ words
          → (5 ≤ words) × (words * 4 ≤ len)
          → P (with_payload h (drop (words * 4) buffer) (len - words * 4))
      ends words h s (a, b) = (
        IsWindow-within (λ (h : TcpHeader). h.data_offset * 4) buffer len h (words * 4)
            (len - words * 4) inside (omega arith) (omega arith),
        omega arith,
        omega arith,
      )

      neither :
          (v : ℕ)
          → (ltb (v / 16) 5 || ltb len (v / 16 * 4)) ≡ false
          → (5 ≤ v / 16) × (v / 16 * 4 ≤ len)
      neither v b = ground arith

      either :
          (v : ℕ)
          → (ltb (v / 16) 5 || ltb len (v / 16 * 4)) ≡ true
          → (v / 16 < 5) ⊎ (len < v / 16 * 4)
      either v b = ground arith
