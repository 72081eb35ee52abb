-- ===== src/Cap/Codegen/Link.antt =====
-- Backpatching as a map over positions: what `pl_resolve` does to each instruction.
use my_wireshark.Base.{
  ℕ, zero, suc, ◌+◌, ◌-◌, ◌≤◌, ◌<◌, ◌≡◌, refl, sym, ap, ap₂, ◌∙◌, Bool, inl, inr, List, [], ◌∷◌,
  ◌++◌, arith, ◌==◌, ltb, leb, true, false, ◌||◌, if◌then◌else◌, length, All, Bool-cases,
}
use my_wireshark.Cap.Insn.{Insn}
use my_wireshark.Cap.Codegen.{done, fault, Patches, set_jump, update, pl_resolve}

-- The instruction at position `j` once the entries of the list jump to `t`.
pub patch_at : Patches → ℕ → ℕ → Insn → Insn
patch_at [] t j x = x
patch_at ((idx, is_jt) ∷ pl) t j x =
    patch_at pl t j (if j == idx then set_jump is_jt (t - (idx + 1)) x else x)

-- The same for a stretch of code that begins at position `b`.
pub link : ℕ → Patches → ℕ → List Insn → List Insn
link b pl t [] = []
link b pl t (x ∷ xs) = patch_at pl t b x ∷ link (suc b) pl t xs

abbrev pub Below : ℕ → Patches → Type 0
Below n pl = All (λ (p : ℕ × Bool). p.0 < n) pl

abbrev pub AtLeast : ℕ → Patches → Type 0
AtLeast n pl = All (λ (p : ℕ × Bool). n ≤ p.0) pl

pub link-append :
    (b : ℕ) (pl : Patches) (t : ℕ) (xs ys : List Insn)
    → link b pl t (xs ++ ys) ≡ link b pl t xs ++ link (b + length xs) pl t ys
unfolding link
link-append b pl t [] ys = ap (λ k. link k pl t ys) (omega arith)
link-append b pl t (x ∷ xs) ys =
    ap (λ r. patch_at pl t b x ∷ r)
      (link-append (suc b) pl t xs ys
        ∙ ap (λ k. link (suc b) pl t xs ++ link k pl t ys) (omega arith))

pub length-link :
    (b : ℕ) (pl : Patches) (t : ℕ) (xs : List Insn) → length (link b pl t xs) ≡ length xs
unfolding link
length-link b pl t [] = refl
length-link b pl t (x ∷ xs) = ap suc (length-link (suc b) pl t xs)

pub link-nil : (b t : ℕ) (xs : List Insn) → link b [] t xs ≡ xs
unfolding link patch_at
link-nil b t [] = refl
link-nil b t (x ∷ xs) = ap (λ r. x ∷ r) (link-nil (suc b) t xs)

patch_at-append :
    (pl ql : Patches) (t j : ℕ) (x : Insn)
    → patch_at (pl ++ ql) t j x ≡ patch_at ql t j (patch_at pl t j x)
unfolding patch_at
patch_at-append [] ql t j x = refl
patch_at-append ((idx, b) ∷ pl) ql t j x =
    patch_at-append pl ql t j (if j == idx then set_jump b (t - (idx + 1)) x else x)

pub link-append_patches :
    (b : ℕ) (pl ql : Patches) (t : ℕ) (xs : List Insn)
    → link b (pl ++ ql) t xs ≡ link b ql t (link b pl t xs)
unfolding link
link-append_patches b pl ql t [] = refl
link-append_patches b pl ql t (x ∷ xs) =
    ap₂ ◌∷◌ (patch_at-append pl ql t b x) (link-append_patches (suc b) pl ql t xs)

patch_at-Below : (pl : Patches) (t j : ℕ) (x : Insn) → Below j pl → patch_at pl t j x ≡ x
unfolding patch_at
patch_at-Below [] t j x h = refl
patch_at-Below ((idx, b) ∷ pl) t j x (h, hs) = ground (arith, patch_at-Below pl t j x hs)

patch_at-AtLeast : (pl : Patches) (t j : ℕ) (x : Insn) → AtLeast (suc j) pl → patch_at pl t j x ≡ x
unfolding patch_at
patch_at-AtLeast [] t j x h = refl
patch_at-AtLeast ((idx, b) ∷ pl) t j x (h, hs) = ground (arith, patch_at-AtLeast pl t j x hs)

pub Below-mono : {m n : ℕ} (pl : Patches) → m ≤ n → Below m pl → Below n pl
Below-mono [] h p = tt
Below-mono (e ∷ pl) h (p, ps) = (omega arith, Below-mono pl h ps)

pub AtLeast-mono : {m n : ℕ} (pl : Patches) → n ≤ m → AtLeast m pl → AtLeast n pl
AtLeast-mono [] h p = tt
AtLeast-mono (e ∷ pl) h (p, ps) = (omega arith, AtLeast-mono pl h ps)

pub link-Below : (b : ℕ) (pl : Patches) (t : ℕ) (xs : List Insn) → Below b pl → link b pl t xs ≡ xs
unfolding link
link-Below b pl t [] h = refl
link-Below b pl t (x ∷ xs) h =
    ap₂ ◌∷◌ (patch_at-Below pl t b x h) (link-Below (suc b) pl t xs (Below-mono pl (omega arith) h))

pub link-AtLeast :
    (b : ℕ) (pl : Patches) (t : ℕ) (xs : List Insn)
    → AtLeast (b + length xs) pl
    → link b pl t xs ≡ xs
unfolding link
link-AtLeast b pl t [] h = refl
link-AtLeast b pl t (x ∷ xs) h =
    ap₂ ◌∷◌ (patch_at-AtLeast pl t b x (AtLeast-mono pl (omega arith) h))
      (link-AtLeast (suc b) pl t xs (AtLeast-mono pl (omega arith) h))

pub Below-append : (n : ℕ) (pl ql : Patches) → Below n pl → Below n ql → Below n (pl ++ ql)
Below-append n [] ql h k = k
Below-append n (e ∷ pl) ql (h, hs) k = (h, Below-append n pl ql hs k)

pub AtLeast-append : (n : ℕ) (pl ql : Patches) → AtLeast n pl → AtLeast n ql → AtLeast n (pl ++ ql)
AtLeast-append n [] ql h k = k
AtLeast-append n (e ∷ pl) ql (h, hs) k = (h, AtLeast-append n pl ql hs k)

link-cons_below :
    (b i : ℕ) (j : Bool) (pl : Patches) (t : ℕ) (xs : List Insn)
    → i < b
    → link b ((i, j) ∷ pl) t xs ≡ link b pl t xs
unfolding link patch_at
link-cons_below b i j pl t [] h = refl
link-cons_below b i j pl t (x ∷ xs) h = ground (arith, link-cons_below (suc b) i j pl t xs)

-- One write into the array is the map that changes that position only.
link-cons :
    (b idx i : ℕ) (j : Bool) (pl : Patches) (t : ℕ) (xs : List Insn)
    → i ≡ b + idx
    → link b ((i, j) ∷ pl) t xs ≡ link b pl t (update xs idx (set_jump j (t - (i + 1))))
unfolding link patch_at
link-cons b idx i j pl t [] e = refl
link-cons b zero i j pl t (x ∷ xs) e =
    ground (arith, link-cons_below (suc b) i j pl t xs (omega arith))
link-cons b (suc idx) i j pl t (x ∷ xs) e =
    ground (arith, link-cons (suc b) idx i j pl t xs (omega arith))

-- A patch list that resolves leaves the jumps that `link` says.
pub pl_resolve-link :
    (g : List Insn) (pl : Patches) (t : ℕ) {g' : List Insn}
    → pl_resolve g pl t ≡ done g'
    → g' ≡ link 0 pl t g
unfolding pl_resolve
pl_resolve-link g [] t h = rw link-nil (cc)
pl_resolve-link g ((idx, j) ∷ pl) t {g'} h =
    elim (Bool-cases (ltb t (idx + 1) || ltb 255 (t - (idx + 1)))) [
      | inl bad ↦ cc (rw bad at h)
      | inr fits ↦
          written (leb (length g) idx) (rw fits at h)
            λ q. pl_resolve-link (update g idx (set_jump j (t - (idx + 1)))) pl t q
    ]
  where
    next : List Insn
    next = update g idx (set_jump j (t - (idx + 1)))

    written :
        (b : Bool)
        → (if b then fault else pl_resolve next pl t) ≡ done g'
        → (pl_resolve next pl t ≡ done g' → g' ≡ link 0 pl t next)
        → g' ≡ link 0 ((idx, j) ∷ pl) t g
    written true q k = cc
    written false q k = k q ∙ sym (link-cons 0 idx idx j pl t g (omega arith))

-- A single open jump, that of the last instruction.
pub link_last :
    (at : ℕ) (is : List Insn) (j : Bool) (t : ℕ) (x : Insn)
    → let last = at + length is in
      link at ((last, j) ∷ []) t (is ++ x ∷ []) ≡ is ++ set_jump j (t - (last + 1)) x ∷ []
unfolding link patch_at
link_last at is j t x =
    link-append at ((at + length is, j) ∷ []) t is (x ∷ [])
    ∙ ap₂ ◌++◌ (link-AtLeast at ((at + length is, j) ∷ []) t is (omega arith)) (ground arith)
