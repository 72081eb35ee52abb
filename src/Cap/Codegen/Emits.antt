-- ===== src/Cap/Codegen/Emits.antt =====
-- `compile_node` emits the reference code, by induction on the node.
use my_wireshark.Base.{
  ℕ, true, false, ◌+◌, ◌≡◌, refl, sym, ap, ap₂, ◌∙◌, subst, List, [], ◌∷◌, ◌++◌, arith, length,
  bit_and, length-append, append_assoc, ◌≡⟨◌⟩◌, ◌∎,
}
use my_wireshark.Cap.Node.{
  Dir, Node, null, and_node, or_node, not_node, ethertype, ipproto, host, port, net,
}
use my_wireshark.Cap.Insn.{
  bpf_w, bpf_h, bpf_b, bpf_abs, bpf_ind, bpf_msh, bpf_and, bpf_jeq, ld, ldx, alu_k, jmp_k, Insn,
  stmt,
}
use my_wireshark.Cap.Codegen.{
  done, Patches, gen_push, pl_resolve, Emitted, emitted, emit_leaf, addr_to_u32, prefix_mask,
  addr_offset, port_offset, compile_node,
}
use my_wireshark.Cap.Codegen.Link.{
  link, Below, AtLeast, Below-mono, AtLeast-mono, Below-append, AtLeast-append, link-append,
  link-nil, length-link, link-append_patches, link-Below, link-AtLeast, pl_resolve-link,
}
use my_wireshark.Cap.Codegen.Shape.{
  size, code_of, Shape, Emits, emit_leaf_lem, leaf-Shape, leaf-Emits, >>=-eq-done, gen_push_lem,
}

-- Patch lists of two adjacent stretches act on their own stretch each.
link_split :
    (at m : ℕ) (pl ql : Patches) (t : ℕ) (xs ys : List Insn)
    → at + length xs ≡ m
    → Below m pl
    → AtLeast m ql
    → link at (pl ++ ql) t (xs ++ ys) ≡ link at pl t xs ++ link m ql t ys
link_split at m pl ql t xs ys e hp hq =
    link at (pl ++ ql) t (xs ++ ys)
    ≡⟨ link-append at (pl ++ ql) t xs ys ⟩
      link at (pl ++ ql) t xs ++ link (at + length xs) (pl ++ ql) t ys
    ≡⟨ ap₂ ◌++◌ (link-append_patches at pl ql t xs) (ap (λ k. link k (pl ++ ql) t ys) e) ⟩
      link at ql t (link at pl t xs) ++ link m (pl ++ ql) t ys
    ≡⟨ ap₂ ◌++◌
        (link-AtLeast at ql t (link at pl t xs)
          (AtLeast-mono ql (omega (arith, length-link at pl t xs)) hq))
        (link-append_patches m pl ql t ys ∙ ap (link m ql t) (link-Below m pl t ys hp)) ⟩
      link at pl t xs ++ link m ql t ys ∎

link_split_twice :
    (at m : ℕ) (pl ql pl' ql' : Patches) (t t' : ℕ) (xs ys : List Insn)
    → at + length xs ≡ m
    → Below m pl
    → AtLeast m ql
    → Below m pl'
    → AtLeast m ql'
    → link at (pl' ++ ql') t' (link at (pl ++ ql) t (xs ++ ys))
      ≡ link at pl' t' (link at pl t xs) ++ link m ql' t' (link m ql t ys)
link_split_twice at m pl ql pl' ql' t t' xs ys e hp hq hp' hq' =
    ap (link at (pl' ++ ql') t') (link_split at m pl ql t xs ys e hp hq)
    ∙ link_split at m pl' ql' t' (link at pl t xs) (link m ql t ys)
        (omega (arith, length-link at pl t xs)) hp' hq'

module _ (at m : ℕ) (l r : Node) {c₁ c₂ : List Insn} {lt lf rt rf : Patches} (e : at + size l ≡ m)
    (left : Shape at l c₁ lt lf) (right : Shape m r c₂ rt rf) where
  and-Shape : Shape at (and_node l r) (link at lt m c₁ ++ c₂) rt (lf ++ rf)
  unfolding size code_of
  and-Shape = record {
    long =
        omega (
          arith,
          length-append (link at lt m c₁) c₂,
          length-link at lt m c₁,
          left.long,
          right.long,
        );
    ts_above = AtLeast-mono rt (omega arith) right.ts_above;
    ts_below = Below-mono rt (omega arith) right.ts_below;
    fs_above = AtLeast-append at lf rf left.fs_above (AtLeast-mono rf (omega arith) right.fs_above);
    fs_below =
        Below-append (at + (size l + size r)) lf rf (Below-mono lf (omega arith) left.fs_below)
          (Below-mono rf (omega arith) right.fs_below);
    linked = λ t f.
        link_split_twice at m [] rt lf rf t f (link at lt m c₁) c₂ ends tt right.ts_above fs_in
          right.fs_above
        ∙ ap₂ ◌++◌
            (ap (link at lf f) (link-nil at t _)
              ∙ left.linked m f
              ∙ ap (λ k. code_of l at k f) (sym e))
            (right.linked t f ∙ ap (λ k. code_of r k t f) (sym e));
    linked' = λ t f.
        link_split_twice at m lf rf [] rt f t (link at lt m c₁) c₂ ends fs_in right.fs_above tt
          right.ts_above
        ∙ ap₂ ◌++◌ (link-nil at t _ ∙ left.linked m f ∙ ap (λ k. code_of l at k f) (sym e))
            (right.linked' t f ∙ ap (λ k. code_of r k t f) (sym e));
  }
    where
      ends : at + length (link at lt m c₁) ≡ m
      ends = omega (arith, length-link at lt m c₁, left.long)

      fs_in : Below m lf
      fs_in = Below-mono lf (omega arith) left.fs_below

  or-Shape : Shape at (or_node l r) (link at lf m c₁ ++ c₂) (lt ++ rt) rf
  unfolding size code_of
  or-Shape = record {
    long =
        omega (
          arith,
          length-append (link at lf m c₁) c₂,
          length-link at lf m c₁,
          left.long,
          right.long,
        );
    ts_above = AtLeast-append at lt rt left.ts_above (AtLeast-mono rt (omega arith) right.ts_above);
    ts_below =
        Below-append (at + (size l + size r)) lt rt (Below-mono lt (omega arith) left.ts_below)
          (Below-mono rt (omega arith) right.ts_below);
    fs_above = AtLeast-mono rf (omega arith) right.fs_above;
    fs_below = Below-mono rf (omega arith) right.fs_below;
    linked = λ t f.
        link_split_twice at m lt rt [] rf t f (link at lf m c₁) c₂ ends ts_in right.ts_above tt
          right.fs_above
        ∙ ap₂ ◌++◌ (link-nil at f _ ∙ left.linked' t m ∙ ap (λ k. code_of l at t k) (sym e))
            (right.linked t f ∙ ap (λ k. code_of r k t f) (sym e));
    linked' = λ t f.
        link_split_twice at m [] rf lt rt f t (link at lf m c₁) c₂ ends tt right.fs_above ts_in
          right.ts_above
        ∙ ap₂ ◌++◌
            (ap (link at lt t) (link-nil at f _)
              ∙ left.linked' t m
              ∙ ap (λ k. code_of l at t k) (sym e))
            (right.linked' t f ∙ ap (λ k. code_of r k t f) (sym e));
  }
    where
      ends : at + length (link at lf m c₁) ≡ m
      ends = omega (arith, length-link at lf m c₁, left.long)

      ts_in : Below m lt
      ts_in = Below-mono lt (omega arith) left.ts_below

not-Shape :
    (at : ℕ) (n : Node) {c : List Insn} {ts fs : Patches}
    → Shape at n c ts fs
    → Shape at (not_node n) c fs ts
unfolding size code_of
not-Shape at n s = record {
  long = s.long;
  ts_above = s.fs_above;
  ts_below = s.fs_below;
  fs_above = s.ts_above;
  fs_below = s.ts_below;
  linked = λ t f. s.linked' f t;
  linked' = λ t f. s.linked f t;
}

-- Resolving the open jumps of the code that was added last leaves the code before it alone.
resolved :
    (g c : List Insn) (pl : Patches) (t : ℕ) {g₁ g₂ : List Insn}
    → g₁ ≡ g ++ c
    → AtLeast (length g) pl
    → pl_resolve g₁ pl t ≡ done g₂
    → g₂ ≡ g ++ link (length g) pl t c
resolved g c pl t {g₁} {g₂} e hp q =
    g₂
    ≡⟨ pl_resolve-link g₁ pl t q ⟩ link 0 pl t g₁
    ≡⟨ ap (link 0 pl t) e ⟩ link 0 pl t (g ++ c)
    ≡⟨ link-append 0 pl t g c ⟩ link 0 pl t g ++ link (0 + length g) pl t c
    ≡⟨ ap₂ ◌++◌ (link-AtLeast 0 pl t g (AtLeast-mono pl (omega arith) hp))
        (ap (λ k. link k pl t c) (omega arith)) ⟩
      g ++ link (length g) pl t c ∎

-- What a call adds to empty lists, and where it ends.
length-Emits :
    (g : List Insn) (n : Node) {ts fs : Patches} {e : Emitted}
    → Emits g n ts fs e
    → length e.insns ≡ length g + size n
length-Emits g n em = ap length em.insns_eq ∙ omega (arith, length-append g em.code, em.shape.long)

module _ (g : List Insn) (l r : Node) (out_t out_f : Patches) {e₁ e₂ : Emitted} {g₁ : List Insn}
    (left : Emits g l [] [] e₁) (right : Emits g₁ r [] [] e₂) where
  -- The end of the left operand's code, where its resolved jumps go.
  abbrev middle : ℕ
  middle = length e₁.insns

  module _ (pl : Patches) (resolve : g₁ ≡ g ++ link (length g) pl middle left.code) where
    length-resolved : length g₁ ≡ middle
    length-resolved =
        ap length resolve
        ∙ omega (
          arith,
          length-append g (link (length g) pl middle left.code),
          length-link (length g) pl middle left.code,
          left.shape.long,
          length-Emits g l left,
        )

    right-Shape : Shape middle r right.code right.ts right.fs
    right-Shape = subst (λ k. Shape k r right.code right.ts right.fs) length-resolved right.shape

    insns-pair : e₂.insns ≡ g ++ (link (length g) pl middle left.code ++ right.code)
    insns-pair = right.insns_eq ∙ rw resolve (append_assoc g _ right.code)

  and-Emits :
      pl_resolve e₁.insns e₁.out_t (length e₁.insns) ≡ done g₁
      → Emits g
          (and_node l r)
          out_t
          out_f
          (emitted e₂.insns (out_t ++ e₂.out_t) ((out_f ++ e₁.out_f) ++ e₂.out_f))
  and-Emits q =
      let eq =
        resolved g left.code left.ts middle left.insns_eq left.shape.ts_above (rw left.t_eq at q) in
      record {
        code = link (length g) left.ts middle left.code ++ right.code;
        ts = right.ts;
        fs = left.fs ++ right.fs;
        insns_eq = insns-pair left.ts eq;
        t_eq = cc (right.t_eq);
        f_eq = cc (left.f_eq, right.f_eq, append_assoc out_f left.fs right.fs);
        shape =
            and-Shape (length g) middle l r (sym (length-Emits g l left)) left.shape
              (right-Shape left.ts eq);
      }

  or-Emits :
      pl_resolve e₁.insns e₁.out_f (length e₁.insns) ≡ done g₁
      → Emits g
          (or_node l r)
          out_t
          out_f
          (emitted e₂.insns ((out_t ++ e₁.out_t) ++ e₂.out_t) (out_f ++ e₂.out_f))
  or-Emits q =
      let eq =
        resolved g left.code left.fs middle left.insns_eq left.shape.fs_above (rw left.f_eq at q) in
      record {
        code = link (length g) left.fs middle left.code ++ right.code;
        ts = left.ts ++ right.ts;
        fs = right.fs;
        insns_eq = insns-pair left.fs eq;
        t_eq = cc (left.t_eq, right.t_eq, append_assoc out_t left.ts right.ts);
        f_eq = cc (right.f_eq);
        shape =
            or-Shape (length g) middle l r (sym (length-Emits g l left)) left.shape
              (right-Shape left.fs eq);
      }

-- The load of the header length before the leaf of `port`.
port-Emits :
    (g : List Insn) (dir : Dir) (k : ℕ) (out_t out_f : Patches) {e : Emitted}
    → emit_leaf
        (g ++ stmt (ldx bpf_b bpf_msh) 14 ∷ [])
        (stmt (ld bpf_h bpf_ind) (port_offset dir) ∷ [])
        k
        out_t
        out_f
      ≡ done e
    → Emits g (port dir k) out_t out_f e
unfolding code_of
port-Emits g dir k out_t out_f q =
    let load = stmt (ldx bpf_b bpf_msh) 14 in
    let is = load ∷ stmt (ld bpf_h bpf_ind) (port_offset dir) ∷ [] in
    let e =
      emit_leaf_lem (g ++ load ∷ []) (stmt (ld bpf_h bpf_ind) (port_offset dir) ∷ []) k out_t out_f
        q in
    let at : length (g ++ load ∷ []) + 1 ≡ length g + 2 =
      omega (arith, length-append g (load ∷ [])) in
    record {
      code = is ++ stmt (jmp_k bpf_jeq) k ∷ [];
      ts = (length g + 2, true) ∷ [];
      fs = (length g + 2, false) ∷ [];
      insns_eq =
          ap (λ (x : Emitted). x.insns) e
          ∙ append_assoc g (load ∷ [])
              (stmt (ld bpf_h bpf_ind) (port_offset dir) ∷ stmt (jmp_k bpf_jeq) k ∷ []);
      t_eq = ap (λ (x : Emitted). x.out_t) e ∙ ap (λ i. out_t ++ (i, true) ∷ []) at;
      f_eq = ap (λ (x : Emitted). x.out_f) e ∙ ap (λ i. out_f ++ (i, false) ∷ []) at;
      shape = leaf-Shape (length g) (port dir k) is k refl (λ t f. refl);
    }

-- Every successful call appends the code of its node, with its open jumps on the caller's lists.
pub compile_node-Emits :
    (n : Node) (g : List Insn) (out_t out_f : Patches) {e : Emitted}
    → compile_node g n out_t out_f ≡ done e
    → Emits g n out_t out_f e
unfolding compile_node code_of
compile_node-Emits null g out_t out_f q = cc
compile_node-Emits (not_node n) g out_t out_f q =
    let (e₁, p₁, q₁) = >>=-eq-done (compile_node g n out_f out_t) _ q in
    let em = compile_node-Emits n g out_f out_t p₁ in
    record {
      code = em.code;
      ts = em.fs;
      fs = em.ts;
      insns_eq = cc (q₁, em.insns_eq);
      t_eq = cc (q₁, em.f_eq);
      f_eq = cc (q₁, em.t_eq);
      shape = not-Shape (length g) n em.shape;
    }
compile_node-Emits (and_node l r) g out_t out_f q =
    let (e₁, p₁, q₁) = >>=-eq-done (compile_node g l [] []) _ q in
    let (g₁, p₂, q₂) = >>=-eq-done (pl_resolve e₁.insns e₁.out_t (length e₁.insns)) _ q₁ in
    let (e₂, p₃, q₃) = >>=-eq-done (compile_node g₁ r [] []) _ q₂ in
    subst (Emits g (and_node l r) out_t out_f) (cc) (
      and-Emits g l r out_t out_f (compile_node-Emits l g [] [] p₁)
        (compile_node-Emits r g₁ [] [] p₃) p₂)
compile_node-Emits (or_node l r) g out_t out_f q =
    let (e₁, p₁, q₁) = >>=-eq-done (compile_node g l [] []) _ q in
    let (g₁, p₂, q₂) = >>=-eq-done (pl_resolve e₁.insns e₁.out_f (length e₁.insns)) _ q₁ in
    let (e₂, p₃, q₃) = >>=-eq-done (compile_node g₁ r [] []) _ q₂ in
    subst (Emits g (or_node l r) out_t out_f) (cc) (
      or-Emits g l r out_t out_f (compile_node-Emits l g [] [] p₁)
        (compile_node-Emits r g₁ [] [] p₃) p₂)
compile_node-Emits (ethertype k) g out_t out_f q =
    leaf-Emits g (ethertype k) (stmt (ld bpf_h bpf_abs) 12 ∷ []) k out_t out_f refl (λ t f. refl) q
compile_node-Emits (ipproto k) g out_t out_f q =
    leaf-Emits g (ipproto k) (stmt (ld bpf_b bpf_abs) 23 ∷ []) k out_t out_f refl (λ t f. refl) q
compile_node-Emits (host dir addr) g out_t out_f q =
    leaf-Emits g (host dir addr) (stmt (ld bpf_w bpf_abs) (addr_offset dir) ∷ []) (addr_to_u32 addr)
      out_t out_f refl (λ t f. refl) q
compile_node-Emits (net dir addr prefix_len) g out_t out_f q =
    leaf-Emits g (net dir addr prefix_len)
      (stmt (ld bpf_w bpf_abs) (addr_offset dir)
        ∷ stmt (alu_k bpf_and) (prefix_mask prefix_len)
        ∷ [])
      (bit_and (addr_to_u32 addr) (prefix_mask prefix_len)) out_t out_f refl (λ t f. refl) q
compile_node-Emits (port dir k) g out_t out_f q =
    let (p, p₁, q₁) = >>=-eq-done (gen_push g (stmt (ldx bpf_b bpf_msh) 14)) _ q in
    port-Emits g dir k out_t out_f (rw (gen_push_lem g _ p₁) at q₁)
