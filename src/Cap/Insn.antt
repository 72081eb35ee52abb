-- ===== src/Cap/Insn.antt =====
-- `struct sock_filter`, with the opcodes written as the source composes them: a class, and what
-- `BPF_SIZE`, `BPF_MODE` and `BPF_OP` read from the rest of the code.
use my_wireshark.Base.{ℕ}

pub data Size : Type 0 where
  bpf_w bpf_h bpf_b : Size

pub data Mode : Type 0 where
  bpf_abs bpf_ind bpf_msh other_mode : Mode

pub data AluOp : Type 0 where
  bpf_and other_alu : AluOp

pub data JmpOp : Type 0 where
  bpf_jeq other_jmp : JmpOp

pub data Code : Type 0 where
  ld ldx : Size → Mode → Code
  alu_k : AluOp → Code
  jmp_k : JmpOp → Code
  ret_k other_class : Code

pub record Insn : Type 0 where
  pub code : Code
  pub jt : ℕ
  pub jf : ℕ
  pub k : ℕ

abbrev pub stmt : Code → ℕ → Insn
stmt c n = record { code = c; jt = 0; jf = 0; k = n }
