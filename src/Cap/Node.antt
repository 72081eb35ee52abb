-- ===== src/Cap/Node.antt =====
-- The AST of src/c/capfilter.c, and the reasons for which it refuses an expression.
use my_wireshark.Base.{ℕ}

-- One constructor for each message that `cf_fail` or `cf_failf` is given.
pub data Error : Type 0 where
  too_many_tokens invalid_ipv4 number_out_of_range unknown_keyword unexpected_character : Error
  too_complex dir_without_kind host_without_addr bad_port net_without_addr net_without_slash : Error
  bad_prefix_len no_primitive no_rparen trailing_tokens too_large jump_out_of_range : Error
  out_of_memory : Error

pub data Dir : Type 0 where
  src dst : Dir

-- `uint8_t addr[4]`
pub record Addr : Type 0 where
  pub b0 : ℕ
  pub b1 : ℕ
  pub b2 : ℕ
  pub b3 : ℕ

-- A `node_t*` with what it points to: one constructor for each `node_kind_t`, with the fields that
-- the kind uses. `null` is the null pointer.
pub data Node : Type 0 where
  null : Node
  and_node or_node : Node → Node → Node
  not_node : Node → Node
  ethertype ipproto : ℕ → Node
  host : Dir → Addr → Node
  port : Dir → ℕ → Node
  net : Dir → Addr → ℕ → Node
