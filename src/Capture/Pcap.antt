-- ===== src/Capture/Pcap.antt =====
-- A reader of .pcap files, and the files that src/c/capture_backend_linux.c writes.
use my_wireshark.Base.{
  ◌>>=◌, ℕ, zero, suc, ◌+◌, ◌*◌, ◌/◌, ◌%◌, ◌^◌, ◌≤◌, ◌<◌, ◌≡◌, refl, ap, List, [], ◌∷◌, ◌++◌,
  Option, none, some, arith, leb, ◌==◌, if◌then◌else◌, ◌&&◌, length, length-append, take, drop, All,
}
use my_wireshark.Capture.{Frame, pcap_global_header, pcap_record_header}

-- The files of a capture to its end: the global header, then header and bytes of each frame.
abbrev pub records : List Frame → List ℕ
records [] = []
records (f ∷ fs) = pcap_record_header f ++ (f.bytes ++ records fs)

-- A frame whose numbers fit the fields of a record.
abbrev pub IsFrame : Frame → Type 0
IsFrame f = (length f.bytes < 2 ^ 32) × (f.ts_seconds < 2 ^ 32) × (f.ts_microseconds < 2 ^ 32)

-- A number of four bytes at the start, and the rest.
abbrev read_u32 : List ℕ → Option (ℕ × List ℕ)
read_u32 (a ∷ b ∷ c ∷ d ∷ rest) = some (a + b * 2 ^ 8 + c * 2 ^ 16 + d * 2 ^ 24, rest)
read_u32 _ = none

-- The bytes of a frame after its record header, and the rest.
abbrev read_bytes : ℕ → List ℕ → Option (List ℕ × List ℕ)
read_bytes n rest = if leb n (length rest) then some (take n rest, drop n rest) else none

-- Records up to the end of the file. Each has at least 16 bytes, so the length of the file is
-- enough fuel.
unfoldable pub read_records : ℕ → List ℕ → Option (List Frame)
read_records fuel [] = some []
read_records zero (x ∷ xs) = none
read_records (suc fuel) (x ∷ xs) = do
  (seconds, r₁) ← read_u32 (x ∷ xs)
  (microseconds, r₂) ← read_u32 r₁
  (incl_len, r₃) ← read_u32 r₂
  (orig_len, r₄) ← read_u32 r₃
  (captured, r₅) ← read_bytes incl_len r₄
  fs ← read_records fuel r₅
  some (record { bytes = captured; ts_seconds = seconds; ts_microseconds = microseconds } ∷ fs)

-- A file of microseconds and of Ethernet: the magic number and the link type are checked.
unfoldable pub read_pcap : List ℕ → Option (List Frame)
unfolding read_records
read_pcap file = do
  (magic, r₁) ← read_u32 file
  (version, r₂) ← read_u32 r₁
  (thiszone, r₃) ← read_u32 r₂
  (sigfigs, r₄) ← read_u32 r₃
  (snaplen, r₅) ← read_u32 r₄
  (network, r₆) ← read_u32 r₅
  if magic == 0xa1b2c3d4 && network == 1 then read_records (length file) r₆ else none

u32-number :
    (n : ℕ)
    → n < 2 ^ 32
    → n % 2 ^ 8
        + n / 2 ^ 8 % 2 ^ 8 * 2 ^ 8
        + n / 2 ^ 16 % 2 ^ 8 * 2 ^ 16
        + n / 2 ^ 24 % 2 ^ 8 * 2 ^ 24
      ≡ n
u32-number n h = omega arith

take-append : (xs ys : List ℕ) → take (length xs) (xs ++ ys) ≡ xs
take-append [] ys = refl
take-append (x ∷ xs) ys = ap (◌∷◌ x) (take-append xs ys)

drop-append : (xs ys : List ℕ) → drop (length xs) (xs ++ ys) ≡ ys
drop-append [] ys = refl
drop-append (x ∷ xs) ys = drop-append xs ys

read_bytes-append : (xs ys : List ℕ) → read_bytes (length xs) (xs ++ ys) ≡ some (xs, ys)
read_bytes-append xs ys =
    rw (take-append xs ys, drop-append xs ys) (ground (arith, length-append xs ys))

pub read_records-records :
    (fuel : ℕ) (fs : List Frame)
    → All IsFrame fs
    → length (records fs) ≤ fuel
    → read_records fuel (records fs) ≡ some fs
unfolding read_records
read_records-records fuel [] h k = refl
read_records-records zero (f ∷ fs) h k = absurd (omega arith)
read_records-records (suc fuel) (f ∷ fs) ((hb, hs, hm), h) k =
    let n : length (records fs) ≤ fuel = omega (arith, length-append f.bytes (records fs)) in
    rw
      (
        u32-number f.ts_seconds hs,
        u32-number f.ts_microseconds hm,
        u32-number (length f.bytes) hb,
        read_bytes-append f.bytes (records fs),
        read_records-records fuel fs h n,
      )
      refl

-- What the global header and the records of frames make is read back as those frames.
pub read_pcap-records :
    (fs : List Frame) → All IsFrame fs → read_pcap (pcap_global_header ++ records fs) ≡ some fs
unfolding read_pcap
read_pcap-records fs h =
    read_records-records (length (pcap_global_header ++ records fs)) fs h (omega arith)
