-- ===== src/Cap/Bpf.antt =====
-- The machine that runs a filter: src/tests/bpf_interp.c.
pub mod Loads
pub mod Runs
use my_wireshark.Base.{
  ℕ, zero, suc, ◌+◌, ◌*◌, ◌%◌, ◌^◌, bit_and, bit_or, List, [], ◌∷◌, Option, none, some, ltb, ◌==◌,
  if◌then◌else◌, length, get_elem?,
}
use my_wireshark.Cap.Insn.{
  Size, bpf_w, bpf_h, bpf_b, Mode, bpf_abs, bpf_ind, bpf_msh, other_mode, bpf_and, other_alu,
  bpf_jeq, other_jmp, Code, ld, ldx, alu_k, jmp_k, ret_k, other_class, Insn,
}

-- `short` is a return of -1; `wild` is a read outside the packet, which C leaves undefined.
pub data Load : Type 0 where
  loaded : ℕ → Load
  short wild : Load

-- The loop of `load_u`, with the bytes that are left to read.
unfoldable pub load_bytes : List ℕ → ℕ → ℕ → ℕ → Load
load_bytes pkt off zero v = loaded v
load_bytes pkt off (suc n) v = elim (get_elem? pkt off) [
  | none ↦ wild
  | some x ↦ load_bytes pkt (off + 1) n (bit_or (v * 2 ^ 8 % 2 ^ 32) x)
]

unfoldable pub load_u : List ℕ → ℕ → ℕ → Load
load_u pkt off width =
    if ltb (length pkt) ((off + width) % 2 ^ 32) then short else load_bytes pkt off width 0

pub record Machine : Type 0 where
  pub pc : ℕ
  pub a : ℕ
  pub x : ℕ

-- What one instruction does: go on, return a value, or read outside the packet.
pub data Effect : Type 0 where
  go : Machine → Effect
  stop : ℕ → Effect
  crash : Effect

abbrev pub width : Size → ℕ
width bpf_w = 4
width bpf_h = 2
width bpf_b = 1

-- A load aborts the program with 0 where it is short.
abbrev pub on_load : Load → (ℕ → Machine) → Effect
on_load (loaded v) f = go (f v)
on_load short f = stop 0
on_load wild f = crash

abbrev pub set_a : Machine → ℕ → Machine
set_a s v = record { pc = s.pc + 1; a = v; x = s.x }

abbrev pub set_x : Machine → ℕ → Machine
set_x s v = record { pc = s.pc + 1; a = s.a; x = v }

-- BPF_LD and BPF_LDX, which share their modes.
unfoldable pub load_step : Size → Mode → ℕ → (Machine → ℕ → Machine) → List ℕ → Machine → Effect
load_step size bpf_abs k put pkt s = on_load (load_u pkt k (width size)) (put s)
load_step size bpf_ind k put pkt s = on_load (load_u pkt ((k + s.x) % 2 ^ 32) (width size)) (put s)
load_step size bpf_msh k put pkt s =
    on_load (load_u pkt k 1) (λ v. set_x s (bit_and v 0x0f * 4 % 2 ^ 32))
load_step size other_mode k put pkt s = stop 0

unfoldable pub step : Code → Insn → List ℕ → Machine → Effect
unfolding load_step
step (ld size mode) i pkt s = load_step size mode i.k set_a pkt s
step (ldx size mode) i pkt s = load_step size mode i.k set_x pkt s
step (alu_k bpf_and) i pkt s = go (set_a s (bit_and s.a i.k))
step (alu_k other_alu) i pkt s = go (set_a s s.a)
step (jmp_k bpf_jeq) i pkt s = go (record s { pc = s.pc + 1 + (if s.a == i.k then i.jt else i.jf) })
step (jmp_k other_jmp) i pkt s = stop 0
step ret_k i pkt s = stop i.k
step other_class i pkt s = stop 0

-- The loop of `bpf_interp_run`, with the steps that its guard leaves; `none` is a wild read.
unfoldable pub exec : ℕ → List Insn → List ℕ → Machine → Option ℕ
exec zero prog pkt s = some 0
exec (suc steps) prog pkt s = elim (get_elem? prog s.pc) [
  | none ↦ some 0
  | some i ↦ elim (step i.code i pkt s) [
    | go s' ↦ exec steps prog pkt s'
    | stop v ↦ some v
    | crash ↦ none
  ]
]

abbrev pub max_steps : ℕ
max_steps = 10000

abbrev pub start : Machine
start = record { pc = 0; a = 0; x = 0 }

unfoldable pub bpf_interp_run : List Insn → List ℕ → Option ℕ
bpf_interp_run [] pkt = some 0xFFFF
bpf_interp_run (i ∷ prog) pkt = exec max_steps (i ∷ prog) pkt start
