-- ===== src/Cap/Correct.antt =====
-- The whole program of a filter: its shape, and what the machine returns on a frame.
use my_wireshark.Base.{
  IsBytes, ℕ, ◌+◌, ◌^◌, ◌≤◌, ◌<◌, ◌≡◌, refl, ap, ap₂, ◌∙◌, subst, Bool, true, false, not, List, [],
  ◌∷◌, ◌++◌, Option, none, some, arith, length, length-append, append_assoc, ◌≡⟨◌⟩◌, ◌∎,
}
use my_wireshark.Cap.Node.{
  src, dst, Node, null, and_node, or_node, not_node, ethertype, ipproto, host, port, net, Dir,
}
use my_wireshark.Cap.Insn.{ret_k, Insn, stmt, bpf_w, bpf_h, bpf_b}
use my_wireshark.Cap.Codegen.{
  done, Emitted, compile_node, compile_root, accept_len, gen_push, pl_resolve, addr_offset,
  max_insns,
}
use my_wireshark.Cap.Codegen.Link.{
  link, link-append, length-link, link-Below, Below-mono, pl_resolve-link,
}
use my_wireshark.Cap.Codegen.Shape.{
  size, Emits, code_of, length-code_of, >>=-eq-done, gen_push_lem, gen_push-lt,
}
use my_wireshark.Cap.Codegen.Emits.{compile_node-Emits}
use my_wireshark.Cap.Bpf.{exec, max_steps, start, bpf_interp_run}
use my_wireshark.Cap.Bpf.Loads.{addr_to_u32-number}
use my_wireshark.Cap.Bpf.Runs.{
  HasCode, HasCode-append, HasCode-suffix, pick, Reaches, Reaches-ret, field-runs, net-runs,
  port-runs,
}
use my_wireshark.Cap.Matches.{
  ip_field, addr_number, matches, map_option, and_then, or_else, IsWellFormed,
}

size_pos : (n : Node) → IsWellFormed n → 0 < size n
unfolding size
size_pos null h = elim h [ ]
size_pos (and_node l r) h = omega (arith, size_pos l h.0)
size_pos (or_node l r) h = omega (arith, size_pos l h.0)
size_pos (not_node n) h = size_pos n h
size_pos _ h = omega arith

pick-and : (p q : Option Bool) (y n : ℕ) → pick p (pick q y n) n ≡ pick (and_then p q) y n
pick-and none q y n = refl
pick-and (some true) q y n = refl
pick-and (some false) q y n = refl

pick-or : (p q : Option Bool) (y n : ℕ) → pick p y (pick q y n) ≡ pick (or_else p q) y n
pick-or none q y n = refl
pick-or (some true) q y n = refl
pick-or (some false) q y n = refl

pick-not : (p : Option Bool) (y n : ℕ) → pick p n y ≡ pick (map_option not p) y n
pick-not none y n = refl
pick-not (some true) y n = refl
pick-not (some false) y n = refl

addr_offset-eq : (d : Dir) → addr_offset d ≡ ip_field d
addr_offset-eq src = refl
addr_offset-eq dst = refl

ip_field_small : (d : Dir) → ip_field d < 2 ^ 16
ip_field_small src = omega arith
ip_field_small dst = omega arith

module _ (prog : List Insn) (pkt : List ℕ) (hb : IsBytes pkt) where
  -- From the start of a node's code the program returns what its value picks.
  code_of-Reaches :
      (n : Node) (at t f yes_v no_v : ℕ)
      → IsWellFormed n
      → at + size n ≤ t
      → at + size n ≤ f
      → HasCode prog at (code_of n at t f)
      → Reaches prog pkt t yes_v
      → Reaches prog pkt f no_v
      → Reaches prog pkt at (pick (matches n pkt) yes_v no_v)
  unfolding code_of size matches
  code_of-Reaches null at t f y n wf lt lf hc ry rn = elim wf [ ]
  code_of-Reaches (and_node l r) at t f y n wf lt lf hc ry rn =
      let m = at + size l in
      let parts = HasCode-append prog at (code_of l at m f) (code_of r m t f) hc in
      let right =
        code_of-Reaches r m t f y n wf.1 (omega arith) (omega arith)
          (subst (λ k. HasCode prog k (code_of r m t f))
            (ap (λ k. at + k) (length-code_of l at m f)) parts.1)
          ry rn in
      rw (← pick-and (matches l pkt) (matches r pkt) y n)
        (code_of-Reaches l at m f _ n wf.0 (omega arith) (omega arith) parts.0 right rn)
  code_of-Reaches (or_node l r) at t f y n wf lt lf hc ry rn =
      let m = at + size l in
      let parts = HasCode-append prog at (code_of l at t m) (code_of r m t f) hc in
      let right =
        code_of-Reaches r m t f y n wf.1 (omega arith) (omega arith)
          (subst (λ k. HasCode prog k (code_of r m t f))
            (ap (λ k. at + k) (length-code_of l at t m)) parts.1)
          ry rn in
      rw (← pick-or (matches l pkt) (matches r pkt) y n)
        (code_of-Reaches l at t m y _ wf.0 (omega arith) (omega arith) parts.0 ry right)
  code_of-Reaches (not_node e) at t f y n wf lt lf hc ry rn =
      rw (← pick-not (matches e pkt) y n) (code_of-Reaches e at f t n y wf lf lt hc rn ry)
  code_of-Reaches (ethertype k) at t f y n wf lt lf hc ry rn =
      field-runs prog pkt at k 12 t f y n bpf_h hb (omega arith) (omega arith) (omega arith) hc ry
        rn
  code_of-Reaches (ipproto k) at t f y n wf lt lf hc ry rn =
      field-runs prog pkt at k 23 t f y n bpf_b hb (omega arith) (omega arith) (omega arith) hc ry
        rn
  code_of-Reaches (host dir addr) at t f y n wf lt lf hc ry rn =
      field-runs prog pkt at (addr_number addr) (ip_field dir) t f y n bpf_w hb (ip_field_small dir)
        (omega arith) (omega arith) (rw (addr_to_u32-number addr wf, addr_offset-eq dir) at hc) ry
        rn
  code_of-Reaches (net dir addr p) at t f y n wf lt lf hc ry rn =
      net-runs prog pkt at (ip_field dir) (addr_number addr) p t f y n hb (ip_field_small dir)
        (omega arith) wf.1 (omega arith) (omega arith)
        (rw (addr_to_u32-number addr wf.0, addr_offset-eq dir) at hc) ry rn
  code_of-Reaches (port dir k) at t f y n wf lt lf hc ry rn =
      port-runs prog pkt at k t f y n dir hb (omega arith) (omega arith) hc ry rn

-- Where the root's code ends in the compiled program: the two returns.
unfoldable pub program_of : Node → List Insn
unfolding code_of size
program_of root =
    code_of root 0 (size root) (size root + 1) ++ stmt ret_k accept_len ∷ stmt ret_k 0 ∷ []

linked_root :
    (root : Node) {e : Emitted} {g₁ g₃ : List Insn}
    → Emits [] root [] [] e
    → pl_resolve e.insns e.out_t (length e.insns) ≡ done g₁
    → pl_resolve
        (g₁ ++ stmt ret_k accept_len ∷ [])
        e.out_f
        (length (g₁ ++ stmt ret_k accept_len ∷ []))
      ≡ done g₃
    → g₃ ≡ code_of root 0 (size root) (size root + 1) ++ stmt ret_k accept_len ∷ []
linked_root root {e} {g₁} {g₃} em p q =
    let s = size root in
    let last = stmt ret_k accept_len ∷ [] in
    let ends : length e.insns ≡ s = ap length em.insns_eq ∙ em.shape.long in
    let first : g₁ ≡ link 0 em.ts s em.code =
      pl_resolve-link e.insns e.out_t (length e.insns) p ∙ rw (ends, em.t_eq, em.insns_eq) in
    let long : length g₁ ≡ s = rw first (length-link 0 em.ts s em.code ∙ em.shape.long) in
    let ends' : length (g₁ ++ last) ≡ s + 1 = omega (arith, length-append g₁ last) in
    g₃
    ≡⟨ pl_resolve-link (g₁ ++ last) e.out_f (length (g₁ ++ last)) q ⟩
      link 0 e.out_f (length (g₁ ++ last)) (g₁ ++ last)
    ≡⟨ (rw (ends', em.f_eq)) ⟩ link 0 em.fs (s + 1) (g₁ ++ last)
    ≡⟨ link-append 0 em.fs (s + 1) g₁ last ⟩
      link 0 em.fs (s + 1) g₁ ++ link (0 + length g₁) em.fs (s + 1) last
    ≡⟨ ap₂ ◌++◌ (ap (link 0 em.fs (s + 1)) first ∙ em.shape.linked s (s + 1)) (
        link-Below (0 + length g₁) em.fs (s + 1) last
          (Below-mono em.fs (omega arith) em.shape.fs_below)) ⟩
      code_of root 0 s (s + 1) ++ last ∎

-- A compiled program, which the code builds by backpatching, is the reference code of the filter
-- with its jumps in place, then the two returns.
pub compile_root_lem :
    (root : Node) {prog : List Insn} → compile_root root ≡ done prog → prog ≡ program_of root
unfolding compile_root program_of
compile_root_lem root q =
    let (e, p₁, q₁) = >>=-eq-done (compile_node [] root [] []) _ q in
    let (g₁, p₂, q₂) = >>=-eq-done (pl_resolve e.insns e.out_t (length e.insns)) _ q₁ in
    let (r₂, p₃, q₃) = >>=-eq-done (gen_push g₁ (stmt ret_k accept_len)) _ q₂ in
    let (g₃, p₄, q₄) = >>=-eq-done (pl_resolve r₂.1 e.out_f (length r₂.1)) _ q₃ in
    let (r₄, p₅, q₅) = >>=-eq-done (gen_push g₃ (stmt ret_k 0)) _ q₄ in
    let third =
      linked_root root (compile_node-Emits root [] [] [] p₁) p₂
        (rw (gen_push_lem g₁ (stmt ret_k accept_len) p₃) at p₄) in
    cc (
      q₅,
      gen_push_lem g₃ (stmt ret_k 0) p₅,
      third,
      append_assoc (code_of root 0 (size root) (size root + 1)) (stmt ret_k accept_len ∷ [])
          (stmt ret_k 0 ∷ []),
    )

-- A compiled program fits the array of instructions.
pub length-compile_root :
    (root : Node) {prog : List Insn} → compile_root root ≡ done prog → length prog ≤ max_insns
unfolding compile_root
length-compile_root root {prog} q =
    let (e, p₁, q₁) = >>=-eq-done (compile_node [] root [] []) _ q in
    let (g₁, p₂, q₂) = >>=-eq-done (pl_resolve e.insns e.out_t (length e.insns)) _ q₁ in
    let (r₂, p₃, q₃) = >>=-eq-done (gen_push g₁ (stmt ret_k accept_len)) _ q₂ in
    let (g₃, p₄, q₄) = >>=-eq-done (pl_resolve r₂.1 e.out_f (length r₂.1)) _ q₃ in
    let (r₄, p₅, q₅) = >>=-eq-done (gen_push g₃ (stmt ret_k 0)) _ q₄ in
    let whole : prog ≡ g₃ ++ stmt ret_k 0 ∷ [] = cc (q₅, gen_push_lem g₃ (stmt ret_k 0) p₅) in
    omega (
      arith,
      ap length whole,
      length-append g₃ (stmt ret_k 0 ∷ []),
      gen_push-lt g₃ (stmt ret_k 0) p₅,
    )

bpf_interp_run-exec :
    (prog : List Insn) (pkt : List ℕ)
    → 0 < length prog
    → bpf_interp_run prog pkt ≡ exec max_steps prog pkt start
unfolding bpf_interp_run
bpf_interp_run-exec [] pkt h = absurd (omega arith)
bpf_interp_run-exec (i ∷ prog) pkt h = refl

-- The two returns of the program of a filter, where its code ends.
program_of-Reaches :
    (root : Node) (pkt : List ℕ)
    → IsWellFormed root
    → IsBytes pkt
    → Reaches (program_of root) pkt 0 (pick (matches root pkt) accept_len 0)
unfolding program_of
program_of-Reaches root pkt wf hb =
    let s = size root in
    let code = code_of root 0 s (s + 1) in
    let prog = code ++ stmt ret_k accept_len ∷ stmt ret_k 0 ∷ [] in
    let ends : 0 + length code ≡ s = omega (arith, length-code_of root 0 s (s + 1)) in
    let parts =
      HasCode-append prog 0 code (stmt ret_k accept_len ∷ stmt ret_k 0 ∷ [])
        (HasCode-suffix [] prog) in
    let returns =
      subst (λ k. HasCode prog k (stmt ret_k accept_len ∷ stmt ret_k 0 ∷ [])) ends parts.1 in
    code_of-Reaches prog pkt hb root 0 s (s + 1) accept_len 0 wf (omega arith) (omega arith) parts.0
      (Reaches-ret prog pkt s accept_len returns.0) (Reaches-ret prog pkt (s + 1) 0 returns.1.0)

-- Run on a frame of bytes, the program compiled from a well-formed filter accepts the frame if the
-- filter holds, and returns 0 if the filter does not hold or the frame is too short for a field that
-- decides.
pub compile_root-run :
    (root : Node) {prog : List Insn} (pkt : List ℕ)
    → IsWellFormed root
    → IsBytes pkt
    → compile_root root ≡ done prog
    → bpf_interp_run prog pkt ≡ some (pick (matches root pkt) accept_len 0)
unfolding program_of
compile_root-run root {prog} pkt wf hb q =
    let e = compile_root_lem root q in
    let long = length-compile_root root q in
    bpf_interp_run-exec prog pkt (
      rw e (
        omega (
          arith,
          length-append (code_of root 0 (size root) (size root + 1))
              (stmt ret_k accept_len ∷ stmt ret_k 0 ∷ []),
        )))
    ∙ rw e (program_of-Reaches root pkt wf hb start max_steps refl (omega (arith, ap length e)))
