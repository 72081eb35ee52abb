-- ===== src/Wire.antt =====
-- What the header parsers of src/c share: reads at an offset of a buffer, and the outcome of a
-- parse.
pub mod Reads
use my_wireshark.Base.{
  ℕ, ◌+◌, ◌-◌, ◌%◌, ◌^◌, ◌≤◌, ◌≡◌, List, Option, none, some, length, get_elem?, drop,
}
use my_wireshark.Checksum.{be16, copy}

-- A return of 0 with what it filled in, a return of -1, and a read outside the buffer, which C
-- leaves undefined.
pub data Parse {ℓ} (A : Type ℓ) : Type ℓ where
  accepted : A → Parse A
  rejected fault : Parse A

infixl 1 ◌>>=◌
abbrev pub ◌>>=◌ {ℓ κ} : {A : Type ℓ} {B : Type κ} → Parse A → (A → Parse B) → Parse B
accepted a >>= f = f a
rejected >>= f = rejected
fault >>= f = fault

abbrev pub reading {ℓ} : {A : Type ℓ} → Option A → Parse A
reading none = fault
reading (some a) = accepted a

-- `data[i]`
unfoldable pub byte_at : List ℕ → ℕ → Parse ℕ
byte_at buffer i = reading (get_elem? buffer i)

-- `(uint16_t)((data[i] << 8) | data[i + 1])`
unfoldable pub word_at : List ℕ → ℕ → Parse ℕ
unfolding byte_at be16
word_at buffer i = do
  hi ← byte_at buffer i
  lo ← byte_at buffer (i + 1)
  accepted (be16 hi lo % 2 ^ 16)

-- `n` bytes copied from `data + i`
unfoldable pub bytes_at : List ℕ → ℕ → ℕ → Parse (List ℕ)
unfolding copy
bytes_at buffer i n = reading (copy buffer i n)

-- A header with `*out_payload`, as the bytes from it on, and `*out_payload_len`. A caller that
-- passes no pointer for the payload reads neither.
pub record WithPayload {ℓ} (A : Type ℓ) : Type ℓ where
  pub header : A
  pub payload : List ℕ
  pub payload_len : ℕ

abbrev pub with_payload {ℓ} : {A : Type ℓ} → A → List ℕ → ℕ → WithPayload A
with_payload h rest n = record { header = h; payload = rest; payload_len = n }
