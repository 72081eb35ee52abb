-- ===== src/Printer/Dump.antt =====
-- `hex_dump` of src/cpp/packet_printer.cpp, and the whole of what is printed for a frame.
pub mod RoundTrip
use my_wireshark.Base.{
  ℕ, zero, suc, ◌+◌, ◌-◌, ◌*◌, ◌/◌, ◌%◌, ◌≤◌, ◌<◌, ◌≡◌, refl, ap, ◌∙◌, ltb, ◌==◌, if◌then◌else◌,
  Bool, true, false, List, [], ◌∷◌, ◌++◌, map, append_assoc, arith, length, take, drop, IsBytes,
  take-IsBytes, drop-IsBytes, length-drop,
}
use my_wireshark.Base.Text.{codes}
use my_wireshark.Format.{hex_digit, hex02}
use my_wireshark.Capture.{raw_socket_max_frame}
use my_wireshark.Printer.{Line, raw, summary}
use my_wireshark.Printer.Text.{number, Stamp, print}

-- `%04x` of a number below 65536, as the offsets in a frame are
abbrev pub hex04 : ℕ → List ℕ
hex04 v =
    hex_digit (v / 4096)
    ∷ hex_digit (v / 256 % 16)
    ∷ hex_digit (v / 16 % 16)
    ∷ hex_digit (v % 16)
    ∷ []

-- A space after every second byte.
abbrev pub gap : ℕ → List ℕ
gap i = if i % 2 == 1 then b' ' ∷ [] else []

-- The places `i` and after of a line, of which `n` are left, with the bytes that are left of the
-- chunk.
unfoldable pub dump_bytes : ℕ → ℕ → List ℕ → List ℕ
dump_bytes zero i bytes = []
dump_bytes (suc n) i [] = b' ' ∷ b' ' ∷ (gap i ++ dump_bytes n (i + 1) [])
dump_bytes (suc n) i (b ∷ bytes) = hex02 b ++ (gap i ++ dump_bytes n (i + 1) bytes)

-- `isprint` is that of the C library.
module _ (isprint : ℕ → Bool) where
  abbrev pub shown_char : ℕ → ℕ
  shown_char b = if isprint b then b else b'.'

  unfoldable pub dump_line : ℕ → List ℕ → List ℕ
  unfolding dump_bytes
  dump_line offset chunk =
      codes "  0x"
      ++ (hex04 offset
          ++ (codes ":  "
              ++ (dump_bytes 16 0 chunk ++ (codes " " ++ (map shown_char chunk ++ 10 ∷ [])))))

  -- The loop, a unit of fuel for each line; the bytes from the offset on.
  unfoldable pub dump_loop : ℕ → ℕ → List ℕ → List ℕ
  unfolding dump_line
  dump_loop fuel offset [] = []
  dump_loop zero offset (b ∷ bytes) = []
  dump_loop (suc fuel) offset (b ∷ bytes) =
      dump_line offset (take 16 (b ∷ bytes)) ++ dump_loop fuel (offset + 16) (drop 16 (b ∷ bytes))

  -- A frame has at least as many bytes as lines.
  unfoldable pub hex_dump : List ℕ → List ℕ
  unfolding dump_loop
  hex_dump bytes = dump_loop (length bytes) 0 bytes

  abbrev pub line_text : Stamp → Line → List ℕ
  line_text s (raw message) = message
  line_text s (summary pkt suffix) = print s pkt ++ suffix

  -- What `finish` and `finish_raw` write for a frame with its number.
  unfoldable pub line_output : ℕ → Stamp → Line → List ℕ → List ℕ
  unfolding hex_dump
  line_output packet_number s line bytes =
      codes "[#"
      ++ (number packet_number ++ (codes "] " ++ (line_text s line ++ (10 ∷ hex_dump bytes))))
