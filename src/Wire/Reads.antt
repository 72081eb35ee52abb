-- ===== src/Wire/Reads.antt =====
-- Reads in range: they give a value, and of an encoded number that number.
use my_wireshark.Base.{
  ℕ, zero, suc, ◌+◌, ◌/◌, ◌%◌, ◌^◌, ◌≤◌, ◌<◌, ◌≡◌, refl, length-drop, ap, sym, List, [], ◌∷◌, some,
  arith, length, get_elem?, take, drop, leb, if_elim, leb→lt,
}
use my_wireshark.Checksum.{be16, copy}
use my_wireshark.Checksum.Sum.{be16-number}
use my_wireshark.Wire.{
  WithPayload, with_payload, Parse, reading, accepted, rejected, fault, ◌>>=◌, byte_at, word_at,
  bytes_at,
}

-- What a parse that reads nothing outside its buffer gives: `P` of what it accepts, `R` if it
-- rejects.
abbrev pub Ensures {ℓ} : {A : Type ℓ} → (A → Type 0) → Type 0 → Parse A → Type 0
Ensures P R (accepted a) = P a
Ensures P R rejected = R
Ensures P R fault = ⊥

get_elem?-lt : (xs : List ℕ) (i : ℕ) → i < length xs → (v : ℕ) × (get_elem? xs i ≡ some v)
get_elem?-lt [] i h = absurd (omega arith)
get_elem?-lt (x ∷ xs) zero h = (x, refl)
get_elem?-lt (x ∷ xs) (suc i) h = get_elem?-lt xs i (omega arith)

module _ {ℓ} {A : Type ℓ} (P : A → Type 0) (R : Type 0) where
  pub bind-Ensures {κ} :
      {B : Type κ} (Q : B → Type 0) (r : Parse B) (k : B → Parse A)
      → Ensures Q R r
      → ((b : B) → Q b → Ensures P R (k b))
      → Ensures P R (r >>= k)
  bind-Ensures Q (accepted b) k h f = f b h
  bind-Ensures Q rejected k h f = h
  bind-Ensures Q fault k h f = absurd h

  module _ (buffer : List ℕ) (i : ℕ) where
    pub byte_at-Ensures :
        (k : ℕ → Parse A)
        → i < length buffer
        → ((v : ℕ) → byte_at buffer i ≡ accepted v → Ensures P R (k v))
        → Ensures P R (byte_at buffer i >>= k)
    unfolding byte_at
    byte_at-Ensures k h f = let (v, e) = get_elem?-lt buffer i h in rw e (f v (rw e refl))

    pub word_at-Ensures :
        (k : ℕ → Parse A)
        → i + 1 < length buffer
        → ((v : ℕ) → word_at buffer i ≡ accepted v → Ensures P R (k v))
        → Ensures P R (word_at buffer i >>= k)
    unfolding word_at byte_at
    word_at-Ensures k h f =
        let (hi, e) = get_elem?-lt buffer i (omega arith) in
        let (lo, e') = get_elem?-lt buffer (i + 1) h in
        rw (e, e') (f (be16 hi lo % 2 ^ 16) (rw (e, e') refl))

    pub bytes_at-Ensures :
        (n : ℕ) (k : List ℕ → Parse A)
        → i + n ≤ length buffer
        → ((v : List ℕ) → v ≡ take n (drop i buffer) → Ensures P R (k v))
        → Ensures P R (bytes_at buffer i n >>= k)
    unfolding bytes_at copy
    bytes_at-Ensures n k h f =
        if_elim (λ o. Ensures P R (reading o >>= k)) (leb (i + n) (length buffer))
          (λ e. f (take n (drop i buffer)) refl)
          λ e. absurd (omega (arith, leb→lt (i + n) (length buffer) e))

-- The high and the low byte of a 16-bit number.
abbrev pub word : ℕ → List ℕ
word w = w / 256 ∷ (w % 256) ∷ []

pub be16-word : (w : ℕ) → w < 2 ^ 16 → be16 (w / 256) (w % 256) % 2 ^ 16 ≡ w
be16-word w h = omega (arith, be16-number (w / 256) (w % 256) (omega arith))

-- A payload that is the rest of the buffer after a header of the length given, and that ends within
-- the first `len` bytes of the buffer.
abbrev pub IsWindow {ℓ} : {A : Type ℓ} → (A → ℕ) → List ℕ → ℕ → WithPayload A → Type 0
IsWindow size buffer len r =
    (r.payload ≡ drop (size r.header) buffer)
    × (size r.header + r.payload_len ≤ len)
    × (r.payload_len ≤ length r.payload)

pub IsWindow-within {ℓ} :
    {A : Type ℓ} (size : A → ℕ) (buffer : List ℕ) (len : ℕ) (h : A) (n m : ℕ)
    → len ≤ length buffer
    → n + m ≤ len
    → size h ≡ n
    → IsWindow size buffer len (with_payload h (drop n buffer) m)
IsWindow-within size buffer len h n m inside le e =
    (ap (λ k. drop k buffer) (sym e), omega arith, omega (arith, length-drop n buffer))
