-- ===== src/Cap/Codegen.antt =====
-- The code generator of src/c/capfilter.c: compare leaves, patch lists and `compile_node`.
-- A `cf_gen_t` is the list of instructions emitted so far, and `n_insns` its length.
pub mod Link
pub mod Shape
pub mod Emits
pub mod Faults
use my_wireshark.Base.{
  ℕ, ◌+◌, ◌-◌, ◌*◌, ◌%◌, ◌^◌, bit_and, bit_or, Bool, true, false, List, [], ◌∷◌, ◌++◌, ltb, leb,
  ◌==◌, if◌then◌else◌, length, ◌||◌,
}
use my_wireshark.Cap.Node.{
  Error, too_large, jump_out_of_range, Dir, src, dst, Addr, Node, null, and_node, or_node, not_node,
  ethertype, ipproto, host, port, net,
}
use my_wireshark.Cap.Insn.{
  bpf_w, bpf_h, bpf_b, bpf_abs, bpf_ind, bpf_msh, bpf_and, bpf_jeq, ld, ldx, alu_k, jmp_k, ret_k,
  Insn, stmt,
}

-- `failed e` is a return of -1 after `cf_fail`; `fault` is the read through a null node.
pub data Gen {ℓ} (A : Type ℓ) : Type ℓ where
  done : A → Gen A
  failed : Error → Gen A
  fault : Gen A

infixl 5 ◌>>=◌
abbrev pub ◌>>=◌ {ℓ κ} : {A : Type ℓ} {B : Type κ} → Gen A → (A → Gen B) → Gen B
done a >>= f = f a
failed e >>= f = failed e
fault >>= f = fault

abbrev pub max_insns : ℕ
max_insns = 1024

-- `patch_list_t`: an instruction's index, and whether its jt is meant (otherwise its jf).
abbrev pub Patches : Type 0
Patches = List (ℕ × Bool)

unfoldable pub gen_push : List Insn → Insn → Gen (ℕ × List Insn)
gen_push g insn =
    if leb max_insns (length g) then failed too_large else done (length g, g ++ insn ∷ [])

abbrev pub set_jump : Bool → ℕ → Insn → Insn
set_jump true offset insn = record insn { jt = offset }
set_jump false offset insn = record insn { jf = offset }

abbrev pub update : List Insn → ℕ → (Insn → Insn) → List Insn
update [] i f = []
update (x ∷ xs) i f = if i == 0 then f x ∷ xs else x ∷ update xs (i - 1) f

-- `offset < 0` is `target_pc < idx + 1`. A write to an instruction that is not there is `fault`.
unfoldable pub pl_resolve : List Insn → Patches → ℕ → Gen (List Insn)
pl_resolve g [] target_pc = done g
pl_resolve g ((idx, is_jt) ∷ pl) target_pc =
    let rest = pl_resolve (update g idx (set_jump is_jt (target_pc - (idx + 1)))) pl target_pc in
    if ltb target_pc (idx + 1) || ltb 255 (target_pc - (idx + 1))
    then failed jump_out_of_range
    else if leb (length g) idx
    then fault
    else rest

-- What a call of `compile_node` leaves in the generator and in the two lists of its caller.
pub record Emitted : Type 0 where
  pub insns : List Insn
  pub out_t : Patches
  pub out_f : Patches

abbrev pub emitted : List Insn → Patches → Patches → Emitted
emitted g t f = record { insns = g; out_t = t; out_f = f }

unfoldable pub push_all : List Insn → List Insn → Gen (List Insn)
push_all g [] = done g
push_all g (i ∷ is) = do (_, g') ← gen_push g i; push_all g' is

unfoldable pub emit_leaf : List Insn → List Insn → ℕ → Patches → Patches → Gen Emitted
emit_leaf g loads k out_t out_f = do
  g₁ ← push_all g loads
  (idx, g₂) ← gen_push g₁ (stmt (jmp_k bpf_jeq) k)
  done (emitted g₂ (out_t ++ (idx, true) ∷ []) (out_f ++ (idx, false) ∷ []))

unfoldable pub addr_to_u32 : Addr → ℕ
addr_to_u32 a =
    bit_or
      (bit_or (bit_or (a.b0 * 2 ^ 24 % 2 ^ 32) (a.b1 * 2 ^ 16 % 2 ^ 32)) (a.b2 * 2 ^ 8 % 2 ^ 32))
      a.b3

unfoldable pub prefix_mask : ℕ → ℕ
prefix_mask prefix_len =
    if prefix_len == 0
    then 0
    else if leb 32 prefix_len
    then 0xFFFF_FFFF
    else 0xFFFF_FFFF * 2 ^ (32 - prefix_len) % 2 ^ 32

-- OFF_IP_SRC and OFF_IP_DST
abbrev pub addr_offset : Dir → ℕ
addr_offset src = 26
addr_offset dst = 30

-- OFF_IP_IHL_BYTE, and two bytes on
abbrev pub port_offset : Dir → ℕ
port_offset src = 14
port_offset dst = 16

unfoldable pub compile_node : List Insn → Node → Patches → Patches → Gen Emitted
compile_node g null out_t out_f = fault
compile_node g (not_node n) out_t out_f = do
  e ← compile_node g n out_f out_t
  done (emitted e.insns e.out_f e.out_t)
compile_node g (and_node l r) out_t out_f = do
  left ← compile_node g l [] []
  g₁ ← pl_resolve left.insns left.out_t (length left.insns)
  right ← compile_node g₁ r [] []
  done (emitted right.insns (out_t ++ right.out_t) ((out_f ++ left.out_f) ++ right.out_f))
compile_node g (or_node l r) out_t out_f = do
  left ← compile_node g l [] []
  g₁ ← pl_resolve left.insns left.out_f (length left.insns)
  right ← compile_node g₁ r [] []
  done (emitted right.insns ((out_t ++ left.out_t) ++ right.out_t) (out_f ++ right.out_f))
compile_node g (ethertype k) out_t out_f =
    emit_leaf g (stmt (ld bpf_h bpf_abs) 12 ∷ []) k out_t out_f
compile_node g (ipproto k) out_t out_f = emit_leaf g (stmt (ld bpf_b bpf_abs) 23 ∷ []) k out_t out_f
compile_node g (host dir addr) out_t out_f =
    emit_leaf g (stmt (ld bpf_w bpf_abs) (addr_offset dir) ∷ []) (addr_to_u32 addr) out_t out_f
compile_node g (net dir addr prefix_len) out_t out_f =
    let mask = prefix_mask prefix_len in
    emit_leaf g (stmt (ld bpf_w bpf_abs) (addr_offset dir) ∷ stmt (alu_k bpf_and) mask ∷ [])
      (bit_and (addr_to_u32 addr) mask) out_t out_f
compile_node g (port dir k) out_t out_f = do
  (_, g') ← gen_push g (stmt (ldx bpf_b bpf_msh) 14)
  emit_leaf g' (stmt (ld bpf_h bpf_ind) (port_offset dir) ∷ []) k out_t out_f

abbrev pub accept_len : ℕ
accept_len = 65535

-- The part of `capfilter_compile` after the parser: the root's code, then the two returns.
unfoldable pub compile_root : Node → Gen (List Insn)
compile_root root = do
  e ← compile_node [] root [] []
  g₁ ← pl_resolve e.insns e.out_t (length e.insns)
  (_, g₂) ← gen_push g₁ (stmt ret_k accept_len)
  g₃ ← pl_resolve g₂ e.out_f (length g₂)
  (_, g₄) ← gen_push g₃ (stmt ret_k 0)
  done g₄
