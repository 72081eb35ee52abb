-- ===== src/Cap/Bpf/Runs.antt =====
-- The reference code of a node, run by the machine, goes where the node's value says.
use my_wireshark.Base.{
  IsBytes, ℕ, zero, suc, ◌+◌, ◌-◌, ◌*◌, ◌/◌, ◌%◌, ◌^◌, ◌≤◌, ◌<◌, ◌≡◌, refl, ap, ◌∙◌, subst, Bool,
  true, false, inl, inr, List, [], ◌∷◌, ◌++◌, Option, none, some, arith, ◌==◌, length, get_elem?,
  bit_and, Bool-cases, Option-cases, get_elem?-append_add, length-append, append_assoc,
}
use my_wireshark.Base.Bits.{bit_and_mask}
use my_wireshark.Cap.Node.{Dir, src, dst}
use my_wireshark.Cap.Insn.{
  Size, bpf_w, bpf_h, bpf_b, Mode, bpf_abs, bpf_ind, bpf_msh, bpf_and, ld, ldx, alu_k, ret_k, Insn,
  stmt,
}
use my_wireshark.Cap.Codegen.{prefix_mask, port_offset}
use my_wireshark.Cap.Codegen.Shape.{size, branch}
use my_wireshark.Cap.Bpf.{
  load_u, Machine, go, stop, width, on_load, set_a, set_x, load_step, step, exec,
}
use my_wireshark.Cap.Bpf.Loads.{load_of, load_u-field, field-lt, prefix_mask-compare}
use my_wireshark.Cap.Matches.{field, map_option, port_field, port_test}

width-le : (size : Size) → width size ≤ 4
width-le bpf_w = omega arith
width-le _ = omega arith

-- The program holds the code from the position on.
abbrev pub HasCode : List Insn → ℕ → List Insn → Type 0
HasCode prog at [] = Unit
HasCode prog at (x ∷ xs) = (get_elem? prog at ≡ some x) × HasCode prog (at + 1) xs

pub HasCode-append :
    (prog : List Insn) (at : ℕ) (xs ys : List Insn)
    → HasCode prog at (xs ++ ys)
    → HasCode prog at xs × HasCode prog (at + length xs) ys
HasCode-append prog at [] ys h = (tt, subst (λ k. HasCode prog k ys) (omega arith) h)
HasCode-append prog at (x ∷ xs) ys p =
    let r = HasCode-append prog (at + 1) xs ys p.1 in
    ((p.0, r.0), subst (λ k. HasCode prog k ys) (omega arith) r.1)

pub HasCode-suffix : (pre xs : List Insn) → HasCode (pre ++ xs) (length pre) xs
HasCode-suffix pre [] = tt
HasCode-suffix pre (x ∷ xs) =
    let e : length (pre ++ x ∷ []) ≡ length pre + 1 = omega (arith, length-append pre (x ∷ [])) in
    let head : get_elem? (pre ++ x ∷ xs) (length pre + 0) ≡ some x =
      get_elem?-append_add pre (x ∷ xs) 0 in
    let at : length pre + 0 ≡ length pre = omega arith in
    (
      rw at at head,
      subst (λ k. HasCode (pre ++ x ∷ xs) k xs) e
          (subst (λ p. HasCode p (length (pre ++ x ∷ [])) xs) (append_assoc pre (x ∷ []) xs)
            (HasCode-suffix (pre ++ x ∷ []) xs)),
    )

-- What the frame gets when the tests that are left have the two outcomes `yes_v` and `no_v`.
abbrev pub pick : Option Bool → ℕ → ℕ → ℕ
pick none yes_v no_v = 0
pick (some true) yes_v no_v = yes_v
pick (some false) yes_v no_v = no_v

module _ (prog : List Insn) (pkt : List ℕ) where
  -- Whatever the registers hold, the program returns `r` from the position on, with a step for each
  -- instruction that is left.
  abbrev pub Reaches : ℕ → ℕ → Type 0
  Reaches at r =
      (s : Machine) (steps : ℕ)
      → s.pc ≡ at
      → length prog ≤ steps + at
      → exec steps prog pkt s ≡ some r

get-lt : (prog : List Insn) (at : ℕ) {i : Insn} → get_elem? prog at ≡ some i → at < length prog
get-lt [] at e = cc
get-lt (x ∷ xs) zero e = omega arith
get-lt (x ∷ xs) (suc at) e = let r = get-lt xs at e in omega arith

module _ (prog : List Insn) (pkt : List ℕ) where
  exec-go :
      (steps at : ℕ) (s : Machine) (i : Insn) {s' : Machine} {r : ℕ}
      → s.pc ≡ at
      → length prog ≤ steps + at
      → get_elem? prog at ≡ some i
      → step i.code i pkt s ≡ go s'
      → ((n : ℕ) → length prog ≤ n + (at + 1) → exec n prog pkt s' ≡ some r)
      → exec steps prog pkt s ≡ some r
  unfolding exec
  exec-go zero at s i pc fuel g st rest = absurd (omega (arith, get-lt prog at g))
  exec-go (suc steps) at s i pc fuel g st rest =
      rw (pc, exec) (rw (g, exec) (rw (st, exec) (rest steps (omega arith))))

  exec-stop :
      (steps at : ℕ) (s : Machine) (i : Insn) {r : ℕ}
      → s.pc ≡ at
      → length prog ≤ steps + at
      → get_elem? prog at ≡ some i
      → step i.code i pkt s ≡ stop r
      → exec steps prog pkt s ≡ some r
  unfolding exec
  exec-stop zero at s i pc fuel g st = absurd (omega (arith, get-lt prog at g))
  exec-stop (suc steps) at s i pc fuel g st = rw (pc, exec) (rw (g, exec) (rw (st, exec)))

  -- A return ends the run with its constant.
  pub Reaches-ret : (at r : ℕ) → get_elem? prog at ≡ some (stmt ret_k r) → Reaches prog pkt at r
  unfolding step
  Reaches-ret at r g s steps pc fuel = exec-stop steps at s (stmt ret_k r) pc fuel g refl

  -- A comparison goes to one of its targets.
  branch-runs :
      (at k t f yes_v no_v : ℕ) (s : Machine) (steps : ℕ)
      → s.pc ≡ at
      → length prog ≤ steps + at
      → at < t
      → at < f
      → get_elem? prog at ≡ some (branch at k t f)
      → Reaches prog pkt t yes_v
      → Reaches prog pkt f no_v
      → exec steps prog pkt s ≡ some (pick (some (s.a == k)) yes_v no_v)
  unfolding step
  branch-runs at k t f yes_v no_v s steps pc fuel lt lf g ry rn =
      exec-go steps at s (branch at k t f) pc fuel g refl λ n room. elim (Bool-cases (s.a == k)) [
        | inl e ↦ rw e (ry _ n (omega arith) (omega arith))
        | inr e ↦ rw e (rn _ n (omega arith) (omega arith))
      ]

  -- A load at which the frame is too short ends the run with 0.
  load-runs :
      (at k off : ℕ) (size : Size) (mode : Mode) (s : Machine) (steps : ℕ) {r : ℕ}
      → s.pc ≡ at
      → length prog ≤ steps + at
      → get_elem? prog at ≡ some (stmt (ld size mode) k)
      → IsBytes pkt
      → off + width size < 2 ^ 32
      → step (ld size mode) (stmt (ld size mode) k) pkt s
        ≡ on_load (load_u pkt off (width size)) (set_a s)
      → (field pkt off (width size) ≡ none → r ≡ 0)
      → ((v : ℕ)
          → field pkt off (width size) ≡ some v
          → (n : ℕ) → length prog ≤ n + (at + 1)
          → exec n prog pkt (set_a s v) ≡ some r)
      → exec steps prog pkt s ≡ some r
  load-runs at k off size mode s steps pc fuel g hb small st short_r long_r =
      elim (Option-cases (field pkt off (width size))) [
        | inl e ↦ rw (short_r e) (
            exec-stop steps at s (stmt (ld size mode) k) pc fuel g
              (st ∙ ap (λ l. on_load l (set_a s)) (loads ∙ ap load_of e)))
        | inr (v, e) ↦
            exec-go steps at s (stmt (ld size mode) k) pc fuel g
              (st ∙ ap (λ l. on_load l (set_a s)) (loads ∙ ap load_of e)) (long_r v e)
      ]
    where
      loads : load_u pkt off (width size) ≡ load_of (field pkt off (width size))
      loads = load_u-field pkt off (width size) hb (width-le size) small

  -- A load at a fixed offset, then a comparison.
  pub field-runs :
      (at k off t f yes_v no_v : ℕ) (size : Size)
      → IsBytes pkt
      → off < 2 ^ 16
      → at + 1 < t
      → at + 1 < f
      → HasCode prog at (stmt (ld size bpf_abs) off ∷ branch (at + 1) k t f ∷ [])
      → Reaches prog pkt t yes_v
      → Reaches prog pkt f no_v
      → Reaches prog pkt at
          (pick (map_option (λ v. v == k) (field pkt off (width size))) yes_v no_v)
  unfolding step load_step
  field-runs at k off t f yes_v no_v size hb small lt lf hc ry rn s steps pc fuel =
      load-runs at off off size bpf_abs s steps pc fuel hc.0 hb (omega (arith, width-le size)) refl
        (λ e. rw e)
        λ v e n room. rw e (
          branch-runs (at + 1) k t f yes_v no_v (set_a s v) n (omega arith) room lt lf hc.1.0 ry rn)

  -- The comparison of an address under a mask.
  pub net-runs :
      (at off n p t f yes_v no_v : ℕ)
      → IsBytes pkt
      → off < 2 ^ 16
      → n < 2 ^ 32
      → p ≤ 32
      → at + 2 < t
      → at + 2 < f
      → HasCode prog at (
          stmt (ld bpf_w bpf_abs) off
          ∷ stmt (alu_k bpf_and) (prefix_mask p)
          ∷ branch (at + 2) (bit_and n (prefix_mask p)) t f
          ∷ [])
      → Reaches prog pkt t yes_v
      → Reaches prog pkt f no_v
      → Reaches prog pkt at (
          pick
            (map_option (λ v. v / 2 ^ (32 - p) == n / 2 ^ (32 - p)) (field pkt off 4))
            yes_v
            no_v)
  unfolding step load_step
  net-runs at off n p t f yes_v no_v hb small hn hp lt lf hc ry rn s steps pc fuel =
      load-runs at off off bpf_w bpf_abs s steps pc fuel hc.0 hb (omega arith) refl (λ e. rw e)
        λ v e m room.
          rw (e, ← prefix_mask-compare v n p (field-lt pkt off hb e) hn hp)
            (exec-go m (at + 1) (set_a s v) (stmt (alu_k bpf_and) (prefix_mask p)) (omega arith)
              room hc.1.0 refl
              λ m' room'.
                branch-runs (at + 2) (bit_and n (prefix_mask p)) t f yes_v no_v _ m' (omega arith)
                  (omega arith) lt lf (rw two at hc.1.1.0) ry rn)
    where
      two : at + 1 + 1 ≡ at + 2
      two = omega arith

  -- The load of a port behind an IP header of any length.
  pub port-runs :
      (at k t f yes_v no_v : ℕ) (dir : Dir)
      → IsBytes pkt
      → at + 2 < t
      → at + 2 < f
      → HasCode prog at (
          stmt (ldx bpf_b bpf_msh) 14
          ∷ stmt (ld bpf_h bpf_ind) (port_offset dir)
          ∷ branch (at + 2) k t f
          ∷ [])
      → Reaches prog pkt t yes_v
      → Reaches prog pkt f no_v
      → Reaches prog pkt at (pick (port_test pkt dir k (field pkt 14 1)) yes_v no_v)
  unfolding step load_step
  port-runs at k t f yes_v no_v dir hb lt lf hc ry rn s steps pc fuel =
      elim (Option-cases (field pkt 14 1)) [
        | inl e ↦
            rw e (
              exec-stop steps at s _ pc fuel hc.0
                (ap (λ l. on_load l after) (loads ∙ ap load_of e)))
        | inr (first, e) ↦ rw e (
            exec-go steps at s _ pc fuel hc.0 (ap (λ l. on_load l after) (loads ∙ ap load_of e))
              λ n room.
                load-runs (at + 1) (port_offset dir) (port_field dir first) bpf_h bpf_ind
                  (after first) n (omega arith) room hc.1.0 hb (in_word dir first)
                  (ap (λ off. on_load (load_u pkt off 2) (set_a (after first))) (offset dir first))
                  (λ e'. rw e')
                  λ v e' m room'. rw e' (
                    branch-runs (at + 2) k t f yes_v no_v (set_a (after first) v) m (omega arith)
                      (omega arith) lt lf (rw two at hc.1.1.0) ry rn))
      ]
    where
      two : at + 1 + 1 ≡ at + 2
      two = omega arith

      after : ℕ → Machine
      after first = set_x s (bit_and first 0x0f * 4 % 2 ^ 32)

      loads : load_u pkt 14 1 ≡ load_of (field pkt 14 1)
      loads = load_u-field pkt 14 1 hb (omega arith) (omega arith)

      in_word : (d : Dir) (first : ℕ) → port_field d first + 2 < 2 ^ 32
      in_word src first = omega arith
      in_word dst first = omega arith

      offset :
          (d : Dir) (first : ℕ)
          → (port_offset d + bit_and first 0x0f * 4 % 2 ^ 32) % 2 ^ 32 ≡ port_field d first
      offset src first = omega (arith, bit_and_mask 4 first)
      offset dst first = omega (arith, bit_and_mask 4 first)
