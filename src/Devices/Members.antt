-- ===== src/Devices/Members.antt =====
-- Names among others, for the listing of the devices of src/c/raw_socket.c.
use mathlib.Core.List.{Memᴰ}
use my_wireshark.Base.{
  ℕ, suc, zero, ◌≤◌, ◌≡◌, ◌≢◌, refl, sym, ap, subst, ◌⊎◌, inl, inr, ◌||◌, Bool, true, false, List,
  [], ◌∷◌, ◌++◌, arith, length, take, All, All-snoc,
}
use my_wireshark.Base.Text.{same_bytes}
use my_wireshark.Base.Decide.{Decides, same_bytes-Decides}
use my_wireshark.Devices.{is_listed}

abbrev pub IsDistinct : List (List ℕ) → Type 0
IsDistinct [] = Unit
IsDistinct (x ∷ xs) = All (λ y. x ≢ y) xs × IsDistinct xs

module _ {A : Type 0} (P : A → Type 0) where
  pub All-intro : (xs : List A) → ((x : A) → Memᴰ x xs → P x) → All P xs
  All-intro [] f = tt
  All-intro (x ∷ xs) f = (f x (Memᴰ.head refl), All-intro xs (λ y m. f y (Memᴰ.tail m)))

  pub All-elim : {x : A} (xs : List A) → All P xs → Memᴰ x xs → P x
  All-elim [] h m = elim m [ ]
  All-elim (y ∷ ys) (p, h) (Memᴰ.head e) = subst P (sym e) p
  All-elim (y ∷ ys) (p, h) (Memᴰ.tail m) = All-elim ys h m

pub Mem-snoc : {A : Type 0} (xs : List A) {x y : A} → Memᴰ y (xs ++ x ∷ []) → Memᴰ y xs ⊎ (y ≡ x)
Mem-snoc [] (Memᴰ.head e) = inr e
Mem-snoc [] (Memᴰ.tail m) = elim m [ ]
Mem-snoc (z ∷ xs) (Memᴰ.head e) = inl (Memᴰ.head e)
Mem-snoc (z ∷ xs) (Memᴰ.tail m) = elim (Mem-snoc xs m) [ inl k ↦ inl (Memᴰ.tail k) | inr e ↦ inr e ]

pub Mem-snoc_last : {A : Type 0} (xs : List A) (x : A) → Memᴰ x (xs ++ x ∷ [])
Mem-snoc_last [] x = Memᴰ.head refl
Mem-snoc_last (y ∷ xs) x = Memᴰ.tail (Mem-snoc_last xs x)

pub Mem-snoc_front : {A : Type 0} (xs : List A) (x : A) {y : A} → Memᴰ y xs → Memᴰ y (xs ++ x ∷ [])
Mem-snoc_front [] x m = elim m [ ]
Mem-snoc_front (z ∷ xs) x (Memᴰ.head e) = Memᴰ.head e
Mem-snoc_front (z ∷ xs) x (Memᴰ.tail m) = Memᴰ.tail (Mem-snoc_front xs x m)

pub IsDistinct-snoc :
    (xs : List (List ℕ)) (x : List ℕ)
    → IsDistinct xs
    → All (λ y. y ≢ x) xs
    → IsDistinct (xs ++ x ∷ [])
IsDistinct-snoc [] x d n = (tt, tt)
IsDistinct-snoc (y ∷ xs) x (a, d) (n, h) =
    (All-snoc (λ z. y ≢ z) xs x a n, IsDistinct-snoc xs x d h)

-- What the test for a name in the output finds.
abbrev pub Found : List ℕ → List (List ℕ) → Bool → Type 0
Found name output true = Memᴰ name output
Found name output false = All (λ other. other ≢ name) output

pub is_listed-Found :
    (name : List ℕ) (output : List (List ℕ)) → Found name output (is_listed name output)
unfolding is_listed
is_listed-Found name [] = tt
is_listed-Found name (other ∷ rest) =
    go (same_bytes other name) (is_listed name rest) (same_bytes-Decides other name)
      (is_listed-Found name rest)
  where
    go :
        (b c : Bool)
        → Decides b (other ≡ name)
        → Found name rest c
        → Found name (other ∷ rest) (b || c)
    go true c d f = Memᴰ.head (sym (d.sound refl))
    go false true d f = Memᴰ.tail f
    go false false d f = ((λ e. cc (d.complete e)), f)

pub take-short : (n : ℕ) (xs : List ℕ) → length xs ≤ n → take n xs ≡ xs
take-short zero [] h = refl
take-short zero (x ∷ xs) h = absurd (omega (arith, h))
take-short (suc n) [] h = refl
take-short (suc n) (x ∷ xs) h = ap (λ ys. x ∷ ys) (take-short n xs (omega (arith, h)))
