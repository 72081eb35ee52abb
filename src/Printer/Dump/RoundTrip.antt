-- ===== src/Printer/Dump/RoundTrip.antt =====
-- A reader of the dumps that `hex_dump` of src/cpp/packet_printer.cpp writes.
use my_wireshark.Base.{
  ℕ, zero, suc, ◌+◌, ◌-◌, ◌*◌, ◌/◌, ◌%◌, ◌≤◌, ◌<◌, ◌≡◌, refl, ap, ◌∙◌, ltb, ◌==◌, if◌then◌else◌,
  Bool, true, false, List, [], ◌∷◌, ◌++◌, map, append_assoc, arith, length, take, drop, IsBytes,
  take-IsBytes, drop-IsBytes, length-drop,
}
use my_wireshark.Base.Text.{codes}
use my_wireshark.Format.{hex_digit}
use my_wireshark.Capture.{raw_socket_max_frame}
use my_wireshark.Printer.Dump.{gap, dump_bytes, shown_char, dump_line, dump_loop, hex_dump}

-- The value of a digit.
abbrev pub digit_value : ℕ → ℕ
digit_value ch = if ltb ch 58 then ch - b'0' else ch - b'a' + 10

-- An empty place gives nothing.
abbrev place : Bool → ℕ → List ℕ → List ℕ
place true value bytes = bytes
place false value bytes = value ∷ bytes

-- The places of a line: the bytes that stand in them, and the text after them.
unfoldable pub read_bytes : ℕ → ℕ → List ℕ → List ℕ × List ℕ
read_bytes zero i text = ([], text)
read_bytes (suc n) i (hi ∷ lo ∷ text) =
    let (bytes, rest) = read_bytes n (i + 1) (drop (i % 2) text) in
    (place (hi == b' ') (digit_value hi * 16 + digit_value lo) bytes, rest)
read_bytes (suc n) i text = ([], text)

-- The bytes of a dump: of each line the 11 places of the offset are passed over, then the bytes
-- are read, and as many characters as there are bytes are passed over between a space and the end
-- of the line.
unfoldable pub read_dump : ℕ → List ℕ → List ℕ
unfolding read_bytes
read_dump fuel [] = []
read_dump zero (ch ∷ text) = []
read_dump (suc fuel) (ch ∷ text) =
    let (bytes, rest) = read_bytes 16 0 (drop 11 (ch ∷ text)) in
    bytes ++ read_dump fuel (drop (suc (length bytes)) (drop 1 rest))

digit_value-hex_digit : (d : ℕ) → d < 16 → digit_value (hex_digit d) ≡ d
digit_value-hex_digit d h = ground arith

hex_digit-not_space : (d : ℕ) → d < 16 → (hex_digit d == b' ') ≡ false
hex_digit-not_space d h = ground arith

drop-gap_of :
    (m : ℕ) (text : List ℕ) → m < 2 → drop m ((if m == 1 then b' ' ∷ [] else []) ++ text) ≡ text
drop-gap_of zero text h = refl
drop-gap_of (suc zero) text h = refl
drop-gap_of (suc (suc m)) text h = absurd (omega (arith, h))

drop-gap : (i : ℕ) (text : List ℕ) → drop (i % 2) (gap i ++ text) ≡ text
drop-gap i text = drop-gap_of (i % 2) text (omega arith)

drop-gap_before :
    (i : ℕ) (text rest : List ℕ) → drop (i % 2) ((gap i ++ text) ++ rest) ≡ text ++ rest
drop-gap_before i text rest =
    ap (drop (i % 2)) (append_assoc (gap i) text rest) ∙ drop-gap i (text ++ rest)

read_bytes-dump_bytes :
    (n i : ℕ) (chunk rest : List ℕ)
    → IsBytes chunk
    → length chunk ≤ n
    → read_bytes n i (dump_bytes n i chunk ++ rest) ≡ (chunk, rest)
unfolding read_bytes dump_bytes
read_bytes-dump_bytes zero i [] rest h l = refl
read_bytes-dump_bytes zero i (b ∷ chunk) rest h l = absurd (omega (arith, l))
read_bytes-dump_bytes (suc n) i [] rest h l =
    ap (read_bytes n (i + 1)) (drop-gap_before i (dump_bytes n (i + 1) []) rest)
    ∙ read_bytes-dump_bytes n (i + 1) [] rest tt (omega arith)
read_bytes-dump_bytes (suc n) i (b ∷ chunk) rest (k, h) l =
    ap (λ (p : List ℕ × List ℕ). (place (hex_digit (b / 16) == b' ') value p.0, p.1))
      (ap (read_bytes n (i + 1)) (drop-gap_before i (dump_bytes n (i + 1) chunk) rest)
        ∙ read_bytes-dump_bytes n (i + 1) chunk rest h (omega (arith, l)))
    ∙ ap (λ (t : Bool). (place t value chunk, rest))
        (hex_digit-not_space (b / 16) (omega (arith, k)))
    ∙ ap (λ (v : ℕ). (v ∷ chunk, rest))
        (omega (
          arith,
          digit_value-hex_digit (b / 16) (omega (arith, k)),
          digit_value-hex_digit (b % 16) (omega arith),
        ))
  where
    value : ℕ
    value = digit_value (hex_digit (b / 16)) * 16 + digit_value (hex_digit (b % 16))

take-append_drop : (n : ℕ) (xs : List ℕ) → take n xs ++ drop n xs ≡ xs
take-append_drop zero xs = refl
take-append_drop (suc n) [] = refl
take-append_drop (suc n) (x ∷ xs) = ap (λ ys. x ∷ ys) (take-append_drop n xs)

length-take_bound : (n : ℕ) (xs : List ℕ) → length (take n xs) ≤ n
length-take_bound zero xs = omega arith
length-take_bound (suc n) [] = omega arith
length-take_bound (suc n) (x ∷ xs) = omega (arith, length-take_bound n xs)

module _ (isprint : ℕ → Bool) where
  -- The characters of a line and its end are passed over.
  drop-shown :
      (chunk rest : List ℕ)
      → drop (suc (length chunk)) ((map (shown_char isprint) chunk ++ 10 ∷ []) ++ rest) ≡ rest
  drop-shown [] rest = refl
  drop-shown (b ∷ chunk) rest = drop-shown chunk rest

  read_dump-dump_line :
      (m offset : ℕ) (chunk rest : List ℕ)
      → IsBytes chunk
      → length chunk ≤ 16
      → read_dump (suc m) (dump_line isprint offset chunk ++ rest) ≡ chunk ++ read_dump m rest
  unfolding read_dump dump_line
  read_dump-dump_line m offset chunk rest h l =
      ap finished (
        ap (read_bytes 16 0) (append_assoc (dump_bytes 16 0 chunk) tail rest)
        ∙ read_bytes-dump_bytes 16 0 chunk (tail ++ rest) h l)
      ∙ ap (λ (text : List ℕ). chunk ++ read_dump m text) (drop-shown chunk rest)
    where
      tail : List ℕ
      tail = codes " " ++ (map (shown_char isprint) chunk ++ 10 ∷ [])

      finished : List ℕ × List ℕ → List ℕ
      finished p = p.0 ++ read_dump m (drop (suc (length p.0)) (drop 1 p.1))

  read_dump-dump_loop :
      (m fuel offset : ℕ) (bytes : List ℕ)
      → IsBytes bytes
      → length bytes ≤ m
      → length bytes ≤ fuel
      → read_dump m (dump_loop isprint fuel offset bytes) ≡ bytes
  unfolding dump_loop
  read_dump-dump_loop m fuel offset [] h l k = unfold read_dump in refl
  read_dump-dump_loop zero fuel offset (b ∷ bytes) h l k = absurd (omega (arith, l))
  read_dump-dump_loop (suc m) zero offset (b ∷ bytes) h l k = absurd (omega (arith, k))
  read_dump-dump_loop (suc m) (suc fuel) offset (b ∷ bytes) h l k =
      let rest : List ℕ = drop 16 (b ∷ bytes) in
      let shorter : length rest ≤ length bytes = omega (arith, length-drop 16 (b ∷ bytes)) in
      read_dump-dump_line m offset (take 16 (b ∷ bytes)) (dump_loop isprint fuel (offset + 16) rest)
        (take-IsBytes 16 (b ∷ bytes) h) (length-take_bound 16 (b ∷ bytes))
      ∙ ap (λ (read : List ℕ). take 16 (b ∷ bytes) ++ read)
          (read_dump-dump_loop m fuel (offset + 16) rest (drop-IsBytes 16 (b ∷ bytes) h)
            (omega (arith, shorter, l)) (omega (arith, shorter, k)))
      ∙ take-append_drop 16 (b ∷ bytes)

  -- The dump of a frame of up to 65536 bytes is read back as its bytes, whatever characters the C
  -- library calls printable: the reader goes by the places of a line alone.
  pub read_dump-hex_dump :
      (bytes : List ℕ)
      → IsBytes bytes
      → length bytes ≤ raw_socket_max_frame
      → read_dump raw_socket_max_frame (hex_dump isprint bytes) ≡ bytes
  unfolding hex_dump
  read_dump-hex_dump bytes h l =
      read_dump-dump_loop raw_socket_max_frame (length bytes) 0 bytes h l (omega arith)
