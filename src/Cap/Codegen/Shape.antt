-- ===== src/Cap/Codegen/Shape.antt =====
-- What `compile_node` emits: the code of a reference compiler that is told its two targets.
use my_wireshark.Base.{
  ℕ, suc, ◌+◌, ◌-◌, ◌<◌, ◌≡◌, refl, sym, ap, ◌∙◌, true, false, List, [], ◌∷◌, ◌++◌, arith, length,
  bit_and, length-append, append_assoc, append-nil,
}
use my_wireshark.Cap.Node.{
  Node, null, and_node, or_node, not_node, ethertype, ipproto, host, port, net,
}
use my_wireshark.Cap.Insn.{
  bpf_w, bpf_h, bpf_b, bpf_abs, bpf_ind, bpf_msh, bpf_and, bpf_jeq, ld, ldx, alu_k, jmp_k, Insn,
  stmt,
}
use my_wireshark.Cap.Codegen.{
  Gen, done, failed, fault, ◌>>=◌, Patches, max_insns, gen_push, Emitted, emitted, push_all,
  emit_leaf, addr_to_u32, prefix_mask, addr_offset, port_offset,
}
use my_wireshark.Cap.Codegen.Link.{link, link_last, Below, AtLeast}

-- The number of instructions of a node's code.
unfoldable pub size : Node → ℕ
size null = 0
size (and_node l r) = size l + size r
size (or_node l r) = size l + size r
size (not_node n) = size n
size (ethertype k) = 2
size (ipproto k) = 2
size (host dir addr) = 2
size (net dir addr prefix_len) = 3
size (port dir k) = 3

-- A comparison at position `at` that jumps to `t` or to `f`.
abbrev pub branch : ℕ → ℕ → ℕ → ℕ → Insn
branch at k t f = record { code = jmp_k bpf_jeq; jt = t - (at + 1); jf = f - (at + 1); k = k }

-- The code at position `at` of a node that goes on at `t` if it holds and at `f` if it does not.
unfoldable pub code_of : Node → ℕ → ℕ → ℕ → List Insn
unfolding size
code_of null at t f = []
code_of (and_node l r) at t f = code_of l at (at + size l) f ++ code_of r (at + size l) t f
code_of (or_node l r) at t f = code_of l at t (at + size l) ++ code_of r (at + size l) t f
code_of (not_node n) at t f = code_of n at f t
code_of (ethertype k) at t f = stmt (ld bpf_h bpf_abs) 12 ∷ branch (at + 1) k t f ∷ []
code_of (ipproto k) at t f = stmt (ld bpf_b bpf_abs) 23 ∷ branch (at + 1) k t f ∷ []
code_of (host dir addr) at t f =
    stmt (ld bpf_w bpf_abs) (addr_offset dir) ∷ branch (at + 1) (addr_to_u32 addr) t f ∷ []
code_of (net dir addr prefix_len) at t f =
    let mask = prefix_mask prefix_len in
    stmt (ld bpf_w bpf_abs) (addr_offset dir)
    ∷ stmt (alu_k bpf_and) mask
    ∷ branch (at + 2) (bit_and (addr_to_u32 addr) mask) t f
    ∷ []
code_of (port dir k) at t f =
    stmt (ldx bpf_b bpf_msh) 14
    ∷ stmt (ld bpf_h bpf_ind) (port_offset dir)
    ∷ branch (at + 2) k t f
    ∷ []

pub length-code_of : (n : Node) (at t f : ℕ) → length (code_of n at t f) ≡ size n
unfolding code_of
length-code_of null at t f = refl
length-code_of (and_node l r) at t f = omega (
  arith,
  length-append (code_of l at (at + size l) f) (code_of r (at + size l) t f),
  length-code_of l at (at + size l) f,
  length-code_of r (at + size l) t f,
)
length-code_of (or_node l r) at t f = omega (
  arith,
  length-append (code_of l at t (at + size l)) (code_of r (at + size l) t f),
  length-code_of l at t (at + size l),
  length-code_of r (at + size l) t f,
)
length-code_of (not_node n) at t f = length-code_of n at f t
length-code_of (ethertype k) at t f = refl
length-code_of (ipproto k) at t f = refl
length-code_of (host dir addr) at t f = refl
length-code_of (net dir addr prefix_len) at t f = refl
length-code_of (port dir k) at t f = refl

-- The code and the open jumps that a call adds: whatever the two targets turn out to be, patching
-- the open jumps, in either order, gives the reference code.
pub record Shape (at : ℕ) (n : Node) (code : List Insn) (ts fs : Patches) : Type 0 where
  pub long : length code ≡ size n
  pub ts_above : AtLeast at ts
  pub ts_below : Below (at + size n) ts
  pub fs_above : AtLeast at fs
  pub fs_below : Below (at + size n) fs
  pub linked : (t f : ℕ) → link at fs f (link at ts t code) ≡ code_of n at t f
  pub linked' : (t f : ℕ) → link at ts t (link at fs f code) ≡ code_of n at t f

pub record Emits (g : List Insn) (n : Node) (out_t out_f : Patches) (e : Emitted) : Type 0 where
  pub code : List Insn
  pub ts : Patches
  pub fs : Patches
  pub insns_eq : e.insns ≡ g ++ code
  pub t_eq : e.out_t ≡ out_t ++ ts
  pub f_eq : e.out_f ≡ out_f ++ fs
  pub shape : Shape (length g) n code ts fs

-- Inversion of a successful step.
pub >>=-eq-done {ℓ κ} :
    {A : Type ℓ} {B : Type κ} (m : Gen A) (f : A → Gen B) {c : B}
    → (m >>= f) ≡ done c
    → (a : A) × (m ≡ done a) × (f a ≡ done c)
>>=-eq-done (done a) f e = (a, refl, e)
>>=-eq-done (failed x) f e = cc
>>=-eq-done fault f e = cc

pub gen_push_lem :
    (g : List Insn) (i : Insn) {r : ℕ × List Insn}
    → gen_push g i ≡ done r
    → r ≡ (length g, g ++ i ∷ [])
unfolding gen_push
gen_push_lem g i e = ground arith

pub gen_push-lt :
    (g : List Insn) (i : Insn) {r : ℕ × List Insn} → gen_push g i ≡ done r → length g < max_insns
unfolding gen_push
gen_push-lt g i e = ground arith

pub push_all_lem : (g is : List Insn) {g' : List Insn} → push_all g is ≡ done g' → g' ≡ g ++ is
unfolding push_all
push_all_lem g [] e = rw append-nil (cc)
push_all_lem g (i ∷ is) e =
    let (r, p, q) = >>=-eq-done (gen_push g i) _ e in
    push_all_lem (g ++ i ∷ []) is (rw (gen_push_lem g i p) at q) ∙ append_assoc g (i ∷ []) is

-- A leaf of a node: loads, then a comparison whose jumps are open.
pub emit_leaf_lem :
    (g is : List Insn) (k : ℕ) (out_t out_f : Patches) {e : Emitted}
    → emit_leaf g is k out_t out_f ≡ done e
    → let at = length g + length is in
      e
      ≡ emitted
          (g ++ (is ++ stmt (jmp_k bpf_jeq) k ∷ []))
          (out_t ++ (at, true) ∷ [])
          (out_f ++ (at, false) ∷ [])
unfolding emit_leaf
emit_leaf_lem g is k out_t out_f q =
    let (g₁, p₁, q₁) = >>=-eq-done (push_all g is) _ q in
    let (r, p₂, q₂) = >>=-eq-done (gen_push g₁ (stmt (jmp_k bpf_jeq) k)) _ q₁ in
    cc (
      q₂,
      gen_push_lem g₁ (stmt (jmp_k bpf_jeq) k) p₂,
      push_all_lem g is p₁,
      length-append g is,
      append_assoc g is (stmt (jmp_k bpf_jeq) k ∷ []),
    )

pub leaf-Shape :
    (at : ℕ) (n : Node) (is : List Insn) (k : ℕ)
    → size n ≡ suc (length is)
    → ((t f : ℕ) → code_of n at t f ≡ is ++ branch (at + length is) k t f ∷ [])
    → Shape at n
        (is ++ stmt (jmp_k bpf_jeq) k ∷ [])
        ((at + length is, true) ∷ [])
        ((at + length is, false) ∷ [])
leaf-Shape at n is k hs hc = record {
  long = omega (arith, length-append is (stmt (jmp_k bpf_jeq) k ∷ []));
  ts_above = omega arith;
  ts_below = omega arith;
  fs_above = omega arith;
  fs_below = omega arith;
  linked = λ t f.
      rw (link_last at is true t (stmt (jmp_k bpf_jeq) k))
        (link_last at is false f _ ∙ sym (hc t f));
  linked' = λ t f.
      rw (link_last at is false f (stmt (jmp_k bpf_jeq) k))
        (link_last at is true t _ ∙ sym (hc t f));
}

pub leaf-Emits :
    (g : List Insn) (n : Node) (is : List Insn) (k : ℕ) (out_t out_f : Patches) {e : Emitted}
    → size n ≡ suc (length is)
    → ((t f : ℕ) → code_of n (length g) t f ≡ is ++ branch (length g + length is) k t f ∷ [])
    → emit_leaf g is k out_t out_f ≡ done e
    → Emits g n out_t out_f e
leaf-Emits g n is k out_t out_f hs hc q =
    let e = emit_leaf_lem g is k out_t out_f q in
    record {
      code = is ++ stmt (jmp_k bpf_jeq) k ∷ [];
      ts = (length g + length is, true) ∷ [];
      fs = (length g + length is, false) ∷ [];
      insns_eq = ap (λ (x : Emitted). x.insns) e;
      t_eq = ap (λ (x : Emitted). x.out_t) e;
      f_eq = ap (λ (x : Emitted). x.out_f) e;
      shape = leaf-Shape (length g) n is k hs hc;
    }
