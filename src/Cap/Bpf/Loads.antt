-- ===== src/Cap/Bpf/Loads.antt =====
-- The loads and the masks of the machine, as arithmetic.
use native.Mathlib.Nat.{pow-suc, one-le-pow, mod-lt, mod-eq_of_lt, div-add-mod'}
use mathlib.Core.Bool.{and-eq-true_iff}
use my_wireshark.Base.{
  take-IsBytes, drop-IsBytes, IsBytes, ℕ, zero, suc, ◌+◌, ◌-◌, ◌*◌, ◌/◌, ◌%◌, ◌^◌, ◌≤◌, ◌<◌, ◌≡◌,
  refl, sym, ap, ap₂, ◌≡⟨◌⟩◌, ◌∎, ◌∙◌, Bool, inl, inr, List, [], ◌∷◌, Option, none, some, arith,
  ltb, length, take, drop, get_elem?, bit_or, bit_and, Bool-cases, ltb→le, ◌==◌, true, ◌&&◌, ==_iff,
  every, every-lt,
}
use my_wireshark.Base.Bits.{bit_or_fields, bit_and_mask, bit_and_high}
use my_wireshark.Cap.Node.{Addr}
use my_wireshark.Cap.Codegen.{addr_to_u32, prefix_mask}
use my_wireshark.Cap.Bpf.{Load, loaded, short, load_bytes, load_u}
use my_wireshark.Cap.Matches.{number, field, addr_number, IsOctets}

-- A byte in range, and the bytes from it on.
record Byte (pkt : List ℕ) (off : ℕ) : Type 0 where
  value : ℕ
  here : get_elem? pkt off ≡ some value
  rest : drop off pkt ≡ value ∷ drop (off + 1) pkt
  small : value < 256

byte : (pkt : List ℕ) (off : ℕ) → IsBytes pkt → off < length pkt → Byte pkt off
byte [] off h lt = absurd (omega arith)
byte (x ∷ xs) zero (h, hs) lt = record { value = x; here = refl; rest = refl; small = h }
byte (x ∷ xs) (suc off) (h, hs) lt =
    let r = byte xs off hs (omega arith) in
    let e : suc off + 1 ≡ suc (off + 1) = omega arith in
    record {
      value = r.value;
      here = r.here;
      rest = r.rest ∙ ap (λ k. r.value ∷ drop k (x ∷ xs)) (sym e);
      small = r.small;
    }

grow : (v x p : ℕ) → x < 256 → (v * 256 + x + 1) * p ≤ (v + 1) * (256 * p)
grow v x p h = grind arith

-- `(v << 8) | x` in a 32-bit word.
pub shift_in : (v x : ℕ) → x < 256 → v * 256 < 2 ^ 32 → bit_or (v * 2 ^ 8 % 2 ^ 32) x ≡ v * 256 + x
shift_in v x hx hv =
    let e : v * 2 ^ 8 % 2 ^ 32 ≡ v * 2 ^ 8 = omega arith in rw e (bit_or_fields 8 v x (omega arith))

-- `256 ^ n` times one more than the digits so far stays within the word.
load_bytes-number :
    (pkt : List ℕ) (off n v : ℕ)
    → IsBytes pkt
    → off + n ≤ length pkt
    → (v + 1) * 256 ^ n ≤ 2 ^ 32
    → load_bytes pkt off n v ≡ loaded (number v (take n (drop off pkt)))
unfolding load_bytes
load_bytes-number pkt off zero v hb h hv = refl
load_bytes-number pkt off (suc n) v hb h hv =
    let r = byte pkt off hb (omega arith) in
    let p : (v + 1) * (256 * 256 ^ n) ≤ 2 ^ 32 =
      omega (arith, ap (λ (t : ℕ). (v + 1) * t) (pow-suc 256 n)) in
    let one : 1 ≤ 256 ^ n = one-le-pow n 256 (omega arith) in
    let low : v * 256 < 2 ^ 32 = omega (arith, scale v (256 ^ n) one) in
    rw (r.here, load_bytes)
      (rw (r.rest) (
        rw (shift_in v r.value r.small low) (
          load_bytes-number pkt (off + 1) n (v * 256 + r.value) hb (omega arith)
            (omega (arith, grow v r.value (256 ^ n) r.small)))))
  where
    scale : (v p : ℕ) → 1 ≤ p → (v + 1) * 256 ≤ (v + 1) * (256 * p)
    scale v p h = grind arith

four_bytes : (n : ℕ) → n ≤ 4 → (0 + 1) * 256 ^ n ≤ 2 ^ 32
four_bytes zero h = omega arith
four_bytes (suc zero) h = omega arith
four_bytes (suc (suc zero)) h = omega arith
four_bytes (suc (suc (suc zero))) h = omega arith
four_bytes (suc (suc (suc (suc zero)))) h = omega arith
four_bytes (suc (suc (suc (suc (suc n))))) h = absurd (omega arith)

abbrev pub load_of : Option ℕ → Load
load_of none = short
load_of (some v) = loaded v

-- A load gives the field of the frame, or is short where there is none.
pub load_u-field :
    (pkt : List ℕ) (off n : ℕ)
    → IsBytes pkt
    → n ≤ 4
    → off + n < 2 ^ 32
    → load_u pkt off n ≡ load_of (field pkt off n)
unfolding load_u field
load_u-field pkt off n hb h4 hw =
    let e : (off + n) % 2 ^ 32 ≡ off + n = omega arith in
    elim (Bool-cases (ltb (length pkt) (off + n))) [
      | inl out ↦ ground (arith, e)
      | inr fits ↦ ground (
        arith,
        e,
        load_bytes-number pkt off n 0 hb (omega (arith, ltb→le _ _ fits)) (four_bytes n h4),
      )
    ]

pub addr_to_u32-number : (a : Addr) → IsOctets a → addr_to_u32 a ≡ addr_number a
unfolding addr_to_u32
addr_to_u32-number a h =
    let e₃ : a.b0 * 2 ^ 24 % 2 ^ 32 ≡ a.b0 * 2 ^ 24 = omega arith in
    let e₂ : a.b1 * 2 ^ 16 % 2 ^ 32 ≡ a.b1 * 2 ^ 16 = omega arith in
    let e₁ : a.b2 * 2 ^ 8 % 2 ^ 32 ≡ a.b2 * 2 ^ 8 = omega arith in
    let s₂ : a.b0 * 2 ^ 24 + a.b1 * 2 ^ 16 ≡ (a.b0 * 2 ^ 8 + a.b1) * 2 ^ 16 = omega arith in
    let s₁ : (a.b0 * 2 ^ 8 + a.b1) * 2 ^ 16 + a.b2 * 2 ^ 8
        ≡ ((a.b0 * 2 ^ 8 + a.b1) * 2 ^ 8 + a.b2) * 2 ^ 8 =
      omega arith in
    rw (e₃, e₂, e₁)
      (rw (bit_or_fields 24 a.b0 (a.b1 * 2 ^ 16) (omega arith)) (
        rw s₂ (
          rw (bit_or_fields 16 (a.b0 * 2 ^ 8 + a.b1) (a.b2 * 2 ^ 8) (omega arith)) (
            rw s₁ (
              rw (bit_or_fields 8 ((a.b0 * 2 ^ 8 + a.b1) * 2 ^ 8 + a.b2) a.b3 (omega arith))
                (omega arith))))))

mask_form : ℕ → Bool
unfolding prefix_mask
mask_form p = (prefix_mask p == (2 ^ p - 1) * 2 ^ (32 - p)) && (2 ^ p * 2 ^ (32 - p) == 2 ^ 32)

mask_table : every mask_form 33 ≡ true
unfolding mask_form every
mask_table = refl

mask_lem :
    (p : ℕ)
    → p ≤ 32
    → (prefix_mask p ≡ (2 ^ p - 1) * 2 ^ (32 - p)) × (2 ^ p * 2 ^ (32 - p) ≡ 2 ^ 32)
unfolding mask_form
mask_lem p h =
    let both = (and-eq-true_iff _ _).0 (every-lt mask_form 33 p (omega arith) mask_table) in
    ((==_iff _ _).0 both.0, (==_iff _ _).0 both.1)

quotient_lt : (v a b : ℕ) → 0 < b → v < a * b → v / b < a
quotient_lt v a b hb h = grind arith

-- The mask of a prefix keeps the address above its low bits.
bit_and-prefix_mask :
    (v p : ℕ) → v < 2 ^ 32 → p ≤ 32 → bit_and v (prefix_mask p) ≡ v / 2 ^ (32 - p) * 2 ^ (32 - p)
bit_and-prefix_mask v p hv hp =
    let low = 2 ^ (32 - p) in
    let m = mask_lem p hp in
    let pos : 1 ≤ low = one-le-pow (32 - p) 2 (omega arith) in
    let top : v / low < 2 ^ p = quotient_lt v (2 ^ p) low pos (omega (arith, m.1)) in
    bit_and v (prefix_mask p)
    ≡⟨ ap₂ bit_and (sym (div-add-mod' v low)) m.0 ⟩
      bit_and (v / low * low + v % low) ((2 ^ p - 1) * low)
    ≡⟨ bit_and_high (32 - p) (v / low) (2 ^ p - 1) (v % low) (mod-lt v pos) ⟩
      bit_and (v / low) (2 ^ p - 1) * low
    ≡⟨ ap (λ (t : ℕ). t * low) (bit_and_mask p (v / low) ∙ mod-eq_of_lt top) ⟩ v / low * low ∎

times_cancel : (a b c : ℕ) → 0 < c → a * c ≡ b * c → a ≡ b
times_cancel a b c h e = grind arith

times-eq : (a b c : ℕ) → 0 < c → (a * c == b * c) ≡ (a == b)
times-eq a b c h = elim (Bool-cases (a == b)) [
  | inl e ↦ let q : a ≡ b = (==_iff a b).0 e in rw q (ground arith)
  | inr e ↦ ground (arith, times_cancel a b c h)
]

pub prefix_mask-compare :
    (v n p : ℕ)
    → v < 2 ^ 32
    → n < 2 ^ 32
    → p ≤ 32
    → (bit_and v (prefix_mask p) == bit_and n (prefix_mask p))
      ≡ (v / 2 ^ (32 - p) == n / 2 ^ (32 - p))
prefix_mask-compare v n p hv hn hp =
    rw (bit_and-prefix_mask v p hv hp, bit_and-prefix_mask n p hn hp)
      (times-eq _ _ _ (one-le-pow (32 - p) 2 (omega arith)))

length-take-le : (n : ℕ) (xs : List ℕ) → length (take n xs) ≤ n
length-take-le zero xs = omega arith
length-take-le (suc n) [] = omega arith
length-take-le (suc n) (x ∷ xs) = omega (arith, length-take-le n xs)

number-lt : (acc : ℕ) (xs : List ℕ) → IsBytes xs → number acc xs < (acc + 1) * 256 ^ length xs
number-lt acc [] h = omega arith
number-lt acc (x ∷ xs) (h, hs) = omega (
  arith,
  number-lt (acc * 256 + x) xs hs,
  grow acc x (256 ^ length xs) h,
  ap (λ (t : ℕ). (acc + 1) * t) (pow-suc 256 (length xs)),
)

-- A field of four bytes fits a 32-bit word.
pub field-lt :
    (pkt : List ℕ) (off : ℕ) {v : ℕ} → IsBytes pkt → field pkt off 4 ≡ some v → v < 2 ^ 32
unfolding field
field-lt pkt off hb e =
    let xs = take 4 (drop off pkt) in
    ground (
      arith,
      number-lt 0 xs (take-IsBytes 4 (drop off pkt) (drop-IsBytes off pkt hb)),
      four_bytes (length xs) (length-take-le 4 (drop off pkt)),
    )
