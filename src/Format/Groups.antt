-- ===== src/Format/Groups.antt =====
-- The groups of an IPv6 literal that `%x` writes, and how src/c/dispfilter.c splits them off.
use my_wireshark.Base.{
  ◌>>=◌, ℕ, suc, ◌/◌, ◌%◌, ◌^◌, ◌≤◌, ◌<◌, ◌≡◌, refl, Bool, true, false, List, [], ◌∷◌, ◌++◌, none,
  some, arith, ltb, if_elim, length, ltb→lt, all_test,
}
use my_wireshark.Base.Text.{span}
use my_wireshark.Disp.Literal.{not_colon, hextet_value, parse_hextet_list, split_double}
use my_wireshark.Format.{hex_digit, hex}
use my_wireshark.Format.Digits.{hextet_value-hex, hex_digit-not_colon}

pub span-all : (p : ℕ → Bool) (xs : List ℕ) → all_test p xs ≡ true → span p xs ≡ (xs, [])
unfolding span all_test
span-all p [] h = refl
span-all p (x ∷ xs) h = ground (arith, span-all p xs)

pub span-stop :
    (p : ℕ → Bool) (xs : List ℕ) (y : ℕ) (ys : List ℕ)
    → all_test p xs ≡ true
    → p y ≡ false
    → span p (xs ++ y ∷ ys) ≡ (xs, y ∷ ys)
unfolding span all_test
span-stop p [] y ys h e = rw (e) refl
span-stop p (x ∷ xs) y ys h e = ground (arith, span-stop p xs y ys)

-- The digits of a group: some, at most four, none of them a colon, and their value.
pub record IsGroup (v : ℕ) (ds : List ℕ) : Type 0 where
  pub some_digits : 0 < length ds
  pub few : length ds ≤ 4
  pub no_colon : all_test not_colon ds ≡ true
  pub value : hextet_value 0 ds ≡ some v

pub hex-IsGroup : (v : ℕ) → v < 2 ^ 16 → IsGroup v (hex v)
unfolding all_test
hex-IsGroup v h = record {
  some_digits =
      if_elim (λ (ds : List ℕ). 0 < length ds) (ltb v 16) (λ _. omega arith)
        (λ _.
          if_elim (λ (ds : List ℕ). 0 < length ds) (ltb v 256) (λ _. omega arith)
            (λ _.
              if_elim (λ (ds : List ℕ). 0 < length ds) (ltb v 4096) (λ _. omega arith)
                (λ _. omega arith)));
  few =
      if_elim (λ (ds : List ℕ). length ds ≤ 4) (ltb v 16) (λ _. omega arith)
        (λ _.
          if_elim (λ (ds : List ℕ). length ds ≤ 4) (ltb v 256) (λ _. omega arith)
            (λ _.
              if_elim (λ (ds : List ℕ). length ds ≤ 4) (ltb v 4096) (λ _. omega arith)
                (λ _. omega arith)));
  no_colon =
      if_elim (λ (ds : List ℕ). all_test not_colon ds ≡ true) (ltb v 16)
        (λ e. rw (hex_digit-not_colon v (ltb→lt v 16 e)) refl)
        (λ _.
          if_elim (λ (ds : List ℕ). all_test not_colon ds ≡ true) (ltb v 256)
            (λ e. rw (hex_digit-not_colon (v / 16) (omega (arith, ltb→lt v 256 e)), any v) refl)
            (λ _.
              if_elim (λ (ds : List ℕ). all_test not_colon ds ≡ true) (ltb v 4096)
                (λ e.
                  rw
                    (
                      hex_digit-not_colon (v / 256) (omega (arith, ltb→lt v 4096 e)),
                      any (v / 16),
                      any v,
                    )
                    refl)
                (λ _.
                  rw
                    (
                      hex_digit-not_colon (v / 4096) (omega (arith, h)),
                      any (v / 256),
                      any (v / 16),
                      any v,
                    )
                    refl)));
  value = hextet_value-hex v h;
}
  where
    any : (n : ℕ) → not_colon (hex_digit (n % 16)) ≡ true
    any n = hex_digit-not_colon (n % 16) (omega arith)

-- A group that a colon and more text follow.
pub parse_hextet_list-more :
    (room v : ℕ) (ds : List ℕ) (y : ℕ) (s : List ℕ)
    → IsGroup v ds
    → parse_hextet_list (suc room) (ds ++ b':' ∷ y ∷ s)
      ≡ (parse_hextet_list room (y ∷ s) >>= λ out. some (v ∷ out))
unfolding parse_hextet_list
parse_hextet_list-more room v [] y s g = absurd (omega (arith, g.some_digits))
parse_hextet_list-more room v (c ∷ ds) y s g =
    rw (span-stop not_colon (c ∷ ds) b':' (y ∷ s) g.no_colon refl, g.value) (ground (arith, g.few))

pub parse_hextet_list-last :
    (room v : ℕ) (ds : List ℕ) → IsGroup v ds → parse_hextet_list (suc room) ds ≡ some (v ∷ [])
unfolding parse_hextet_list
parse_hextet_list-last room v [] g = absurd (omega (arith, g.some_digits))
parse_hextet_list-last room v (c ∷ ds) g =
    rw (span-all not_colon (c ∷ ds) g.no_colon, g.value) (ground (arith, g.few))

-- Text without a colon in front does not make a "::".
pub split_double-skip :
    (ds s : List ℕ)
    → all_test not_colon ds ≡ true
    → split_double s ≡ none
    → split_double (ds ++ s) ≡ none
unfolding split_double all_test
split_double-skip [] s h e = e
split_double-skip (c ∷ []) [] h e = refl
split_double-skip (c ∷ []) (x ∷ s) h e = ground (arith, e)
split_double-skip (c ∷ d ∷ ds) s h e = ground (arith, split_double-skip (d ∷ ds) s)
