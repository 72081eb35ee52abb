-- ===== src/Cap/Codegen/Faults.antt =====
-- On a tree without null pointers the code generator reads through none, and its patch lists name
-- instructions that are there.
use my_wireshark.Base.{
  ℕ, suc, ◌+◌, ◌-◌, ◌≤◌, ◌≡◌, refl, true, false, List, [], ◌∷◌, ◌++◌, arith, leb, leb→le, ltb, ◌||◌,
  ◌==◌, length, length-append, if_elim, subst,
}
use my_wireshark.Cap.Node.{
  Node, null, and_node, or_node, not_node, ethertype, ipproto, host, port, net,
}
use my_wireshark.Cap.Insn.{bpf_jeq, jmp_k, ret_k, Insn, stmt}
use my_wireshark.Cap.Matches.{IsWellFormed}
use my_wireshark.Cap.Codegen.{
  Gen, done, failed, fault, ◌>>=◌, Patches, Emitted, max_insns, gen_push, set_jump, update,
  pl_resolve, push_all, emit_leaf, compile_node, compile_root, accept_len,
}
use my_wireshark.Cap.Codegen.Link.{Below, Below-mono, Below-append}

-- No fault, and `P` of the result.
abbrev pub Gives {ℓ} : {A : Type ℓ} → (A → Type 0) → Gen A → Type 0
Gives P (done a) = P a
Gives P (failed e) = Unit
Gives P fault = ⊥

abbrev pub NoFault {ℓ} : {A : Type ℓ} → Gen A → Type 0
NoFault = Gives (λ a. Unit)

Gives-bind {ℓ κ} :
    {A : Type ℓ} {B : Type κ} (P : A → Type 0) (Q : B → Type 0) (m : Gen A) (f : A → Gen B)
    → Gives P m
    → ((a : A) → P a → Gives Q (f a))
    → Gives Q (m >>= f)
Gives-bind P Q (done a) f h k = k a h
Gives-bind P Q (failed e) f h k = tt
Gives-bind P Q fault f h k = absurd h

-- One instruction more, whose place is returned.
abbrev Pushed : List Insn → ℕ × List Insn → Type 0
Pushed g r = (r.0 ≡ length g) × (length r.1 ≡ length g + 1)

gen_push-Pushed : (g : List Insn) (i : Insn) → Gives (Pushed g) (gen_push g i)
unfolding gen_push
gen_push-Pushed g i =
    if_elim (Gives (Pushed g)) (leb max_insns (length g)) (λ _. tt)
      λ _. (refl, omega (arith, length-append g (i ∷ [])))

length-update : (g : List Insn) (i : ℕ) (f : Insn → Insn) → length (update g i f) ≡ length g
length-update [] i f = refl
length-update (x ∷ g) i f =
    if_elim (λ (xs : List Insn). length xs ≡ suc (length g)) (i == 0) (λ _. refl)
      λ _. omega (arith, length-update g (i - 1) f)

abbrev SameLength : List Insn → List Insn → Type 0
SameLength g g' = length g' ≡ length g

pl_resolve-SameLength :
    (g : List Insn) (pl : Patches) (t : ℕ)
    → Below (length g) pl
    → Gives (SameLength g) (pl_resolve g pl t)
unfolding pl_resolve
pl_resolve-SameLength g [] t h = refl
pl_resolve-SameLength g ((idx, j) ∷ pl) t (h, hs) =
    let next = update g idx (set_jump j (t - (idx + 1))) in
    let same = length-update g idx (set_jump j (t - (idx + 1))) in
    if_elim (Gives (SameLength g)) (ltb t (idx + 1) || ltb 255 (t - (idx + 1))) (λ _. tt)
      λ _.
        if_elim (Gives (SameLength g)) (leb (length g) idx)
          (λ out. absurd (omega (arith, h, leb→le (length g) idx out)))
          λ _.
            subst (λ (n : ℕ). Gives (λ (g' : List Insn). length g' ≡ n) (pl_resolve next pl t)) same
              (pl_resolve-SameLength next pl t (Below-mono pl (omega (arith, same)) hs))

abbrev NotShorter : List Insn → List Insn → Type 0
NotShorter g g' = length g ≤ length g'

push_all-NotShorter : (g is : List Insn) → Gives (NotShorter g) (push_all g is)
unfolding push_all
push_all-NotShorter g [] = omega arith
push_all-NotShorter g (i ∷ is) =
    Gives-bind (Pushed g) (NotShorter g) (gen_push g i) _ (gen_push-Pushed g i)
      λ r p. weaker (push_all r.1 is) r.1 (omega (arith, p)) (push_all-NotShorter r.1 is)
  where
    weaker :
        (m : Gen (List Insn)) (g₁ : List Insn)
        → length g ≤ length g₁
        → Gives (NotShorter g₁) m
        → Gives (NotShorter g) m
    weaker (done g') g₁ h k = omega arith
    weaker (failed e) g₁ h k = tt
    weaker fault g₁ h k = k

-- The code has grown, and both lists name instructions of it.
abbrev InPlace : List Insn → Emitted → Type 0
InPlace g e =
    (length g ≤ length e.insns) × Below (length e.insns) e.out_t × Below (length e.insns) e.out_f

emit_leaf-InPlace :
    (g is : List Insn) (k : ℕ) (out_t out_f : Patches) (g₀ : List Insn)
    → length g₀ ≤ length g
    → Below (length g₀) out_t
    → Below (length g₀) out_f
    → Gives (InPlace g₀) (emit_leaf g is k out_t out_f)
unfolding emit_leaf
emit_leaf-InPlace g is k out_t out_f g₀ grown ht hf =
    Gives-bind (NotShorter g) (InPlace g₀) (push_all g is) _ (push_all-NotShorter g is) λ g₁ p.
      Gives-bind (Pushed g₁) (InPlace g₀) (gen_push g₁ (stmt (jmp_k bpf_jeq) k)) _
        (gen_push-Pushed g₁ _)
        λ r q. (
          omega (arith, p, q, grown),
          Below-append (length r.1) out_t ((r.0, true) ∷ [])
              (Below-mono out_t (omega (arith, p, q, grown)) ht) (omega (arith, q), tt),
          Below-append (length r.1) out_f ((r.0, false) ∷ [])
              (Below-mono out_f (omega (arith, p, q, grown)) hf) (omega (arith, q), tt),
        )

compile_node-InPlace :
    (n : Node) (g : List Insn) (out_t out_f : Patches)
    → IsWellFormed n
    → Below (length g) out_t
    → Below (length g) out_f
    → Gives (InPlace g) (compile_node g n out_t out_f)
unfolding compile_node
compile_node-InPlace null g t f h ht hf = h
compile_node-InPlace (not_node n) g t f h ht hf =
    Gives-bind (InPlace g) (InPlace g) (compile_node g n f t) _
      (compile_node-InPlace n g f t h hf ht) λ e p. (p.0, p.2, p.1)
compile_node-InPlace (and_node l r) g t f h ht hf =
    Gives-bind (InPlace g) (InPlace g) (compile_node g l [] []) _
      (compile_node-InPlace l g [] [] h.0 tt tt)
      λ e p.
        Gives-bind (SameLength e.insns) (InPlace g) (pl_resolve e.insns e.out_t (length e.insns)) _
          (pl_resolve-SameLength _ _ _ p.1)
          λ g₁ s.
            Gives-bind (InPlace g₁) (InPlace g) (compile_node g₁ r [] []) _
              (compile_node-InPlace r g₁ [] [] h.1 tt tt)
              λ e₂ q. (
                omega (arith, p.0, s, q.0),
                Below-append _ t e₂.out_t (Below-mono t (omega (arith, p.0, s, q.0)) ht) q.1,
                Below-append _ (f ++ e.out_f) e₂.out_f
                    (Below-append _ f e.out_f (Below-mono f (omega (arith, p.0, s, q.0)) hf)
                      (Below-mono e.out_f (omega (arith, s, q.0)) p.2))
                    q.2,
              )
compile_node-InPlace (or_node l r) g t f h ht hf =
    Gives-bind (InPlace g) (InPlace g) (compile_node g l [] []) _
      (compile_node-InPlace l g [] [] h.0 tt tt)
      λ e p.
        Gives-bind (SameLength e.insns) (InPlace g) (pl_resolve e.insns e.out_f (length e.insns)) _
          (pl_resolve-SameLength _ _ _ p.2)
          λ g₁ s.
            Gives-bind (InPlace g₁) (InPlace g) (compile_node g₁ r [] []) _
              (compile_node-InPlace r g₁ [] [] h.1 tt tt)
              λ e₂ q. (
                omega (arith, p.0, s, q.0),
                Below-append _ (t ++ e.out_t) e₂.out_t
                    (Below-append _ t e.out_t (Below-mono t (omega (arith, p.0, s, q.0)) ht)
                      (Below-mono e.out_t (omega (arith, s, q.0)) p.1))
                    q.1,
                Below-append _ f e₂.out_f (Below-mono f (omega (arith, p.0, s, q.0)) hf) q.2,
              )
compile_node-InPlace (ethertype k) g t f h ht hf = emit_leaf-InPlace g _ _ t f g (omega arith) ht hf
compile_node-InPlace (ipproto k) g t f h ht hf = emit_leaf-InPlace g _ _ t f g (omega arith) ht hf
compile_node-InPlace (host dir addr) g t f h ht hf =
    emit_leaf-InPlace g _ _ t f g (omega arith) ht hf
compile_node-InPlace (net dir addr p) g t f h ht hf =
    emit_leaf-InPlace g _ _ t f g (omega arith) ht hf
compile_node-InPlace (port dir k) g t f h ht hf =
    Gives-bind (Pushed g) (InPlace g) (gen_push g _) _ (gen_push-Pushed g _)
      λ r q. emit_leaf-InPlace r.1 _ _ t f g (omega (arith, q)) ht hf

pub compile_root-NoFault : (root : Node) → IsWellFormed root → NoFault (compile_root root)
unfolding compile_root
compile_root-NoFault root h =
    Gives-bind (InPlace []) _ (compile_node [] root [] []) _
      (compile_node-InPlace root [] [] [] h tt tt)
      λ e p.
        Gives-bind (SameLength e.insns) _ (pl_resolve e.insns e.out_t (length e.insns)) _
          (pl_resolve-SameLength _ _ _ p.1)
          λ g₁ s.
            Gives-bind (Pushed g₁) _ (gen_push g₁ (stmt ret_k accept_len)) _ (gen_push-Pushed g₁ _)
              λ r q.
                Gives-bind (SameLength r.1) _ (pl_resolve r.1 e.out_f (length r.1)) _
                  (pl_resolve-SameLength _ _ _ (Below-mono e.out_f (omega (arith, s, q)) p.2))
                  λ g₃ s'.
                    Gives-bind (Pushed g₃) _ (gen_push g₃ (stmt ret_k 0)) _ (gen_push-Pushed g₃ _)
                      λ r₄ _. tt
