-- ===== src/Disp/Eval/Correct.antt =====
-- `eval_node` of src/c/dispfilter.c decides what a display filter says of a packet.
use my_wireshark.Base.{
  ℕ, ◌≡◌, refl, sym, ap, ◌∙◌, Bool, true, false, not, ◌&&◌, ◌||◌, List, [], ◌∷◌, Option, some, ◌==◌,
  take, length,
}
use my_wireshark.Base.Decide.{
  Decides, not-Decides, or-Decides, and-Decides, ==-Decides, map-Decides, same_bytes-Decides,
}
use my_wireshark.Checksum.Verify.{take_all}
use my_wireshark.Disp.Node.{
  Field, field_eth_src, field_eth_dst, field_eth_addr, field_ip_src, field_ip_dst, field_ip_addr,
  field_ipv6_src, field_ipv6_dst, field_ipv6_addr, field_tcp_srcport, field_tcp_dstport,
  field_tcp_port, field_udp_srcport, field_udp_dstport, field_udp_port, Cmp, cmp_eq, cmp_ne, Value,
  port, ipv4, ipv6, mac, Node, null, and_node, or_node, not_node, cmp_node,
}
use my_wireshark.Disp.Parser.{kind_of}
use my_wireshark.Disp.Eval.{Fields, bytes_eq, eval_eq, eval_cmp, eval_node}
use my_wireshark.Disp.Eval.Holds.{
  IsOfKind, IsWellTyped, IsFields, carried, field_values, IsAmong, Holds,
}

take-length : (n : ℕ) (xs : List ℕ) → length xs ≡ n → take n xs ≡ xs
take-length n xs e = ap (λ k. take k xs) (sym e) ∙ take_all xs

bytes_eq-Decides :
    (k : List ℕ → Value) (inj : (a b : List ℕ) → k a ≡ k b → a ≡ b) (n : ℕ) (a b : List ℕ)
    → length a ≡ n
    → length b ≡ n
    → Decides (bytes_eq a b n) (k a ≡ k b)
unfolding bytes_eq
bytes_eq-Decides k inj n a b p q =
    map-Decides (ap k) (inj a b)
      (rw (take-length n a p, take-length n b q) (same_bytes-Decides a b))

mac_bytes : (a b : List ℕ) → length a ≡ 6 → length b ≡ 6 → Decides (bytes_eq a b 6) (mac a ≡ mac b)
mac_bytes = bytes_eq-Decides mac (λ a b e. cc) 6

ipv4_bytes :
    (a b : List ℕ) → length a ≡ 4 → length b ≡ 4 → Decides (bytes_eq a b 4) (ipv4 a ≡ ipv4 b)
ipv4_bytes = bytes_eq-Decides ipv4 (λ a b e. cc) 4

ipv6_bytes :
    (a b : List ℕ) → length a ≡ 16 → length b ≡ 16 → Decides (bytes_eq a b 16) (ipv6 a ≡ ipv6 b)
ipv6_bytes = bytes_eq-Decides ipv6 (λ a b e. cc) 16

port_number : (a b : ℕ) → Decides (a == b) (port a ≡ port b)
port_number a b = map-Decides (ap port) (λ e. cc) (==-Decides a b)

guard-Decides :
    (has b : Bool) (vs : List Value) (v : Value)
    → Decides b (IsAmong v vs)
    → Decides (has && b) (IsAmong v (carried has vs))
guard-Decides true b vs v d = d
guard-Decides false b vs v d = record { sound = λ e. cc; complete = λ h. absurd h }

-- An evaluation that reads nothing it may not read, and decides a proposition.
abbrev pub Evaluates : Option Bool → Type 0 → Type 0
Evaluates o P = (b : Bool) × (o ≡ some b) × Decides b P

eval_eq-Decides :
    (field : Field) (v : Value) (f : Fields)
    → IsFields f
    → IsOfKind (kind_of field) v
    → Evaluates (eval_eq field v f) (IsAmong v (field_values field f))
unfolding eval_eq
eval_eq-Decides field_eth_src (mac m) f w h = (_, refl, mac_bytes f.eth_src m w.eth_src_len h)
eval_eq-Decides field_eth_dst (mac m) f w h = (_, refl, mac_bytes f.eth_dst m w.eth_dst_len h)
eval_eq-Decides field_eth_addr (mac m) f w h = (
  _,
  refl,
  or-Decides _ _ (mac_bytes f.eth_src m w.eth_src_len h) (mac_bytes f.eth_dst m w.eth_dst_len h),
)
eval_eq-Decides field_ip_src (ipv4 a) f w h = (
  _,
  refl,
  guard-Decides f.has_ip _ (ipv4 f.ip_src ∷ []) _ (ipv4_bytes f.ip_src a w.ip_src_len h),
)
eval_eq-Decides field_ip_dst (ipv4 a) f w h = (
  _,
  refl,
  guard-Decides f.has_ip _ (ipv4 f.ip_dst ∷ []) _ (ipv4_bytes f.ip_dst a w.ip_dst_len h),
)
eval_eq-Decides field_ip_addr (ipv4 a) f w h = (
  _,
  refl,
  guard-Decides f.has_ip _ (ipv4 f.ip_src ∷ ipv4 f.ip_dst ∷ []) _ (
      or-Decides _ _ (ipv4_bytes f.ip_src a w.ip_src_len h) (ipv4_bytes f.ip_dst a w.ip_dst_len h)),
)
eval_eq-Decides field_ipv6_src (ipv6 a) f w h = (
  _,
  refl,
  guard-Decides f.has_ipv6 _ (ipv6 f.ipv6_src ∷ []) _ (ipv6_bytes f.ipv6_src a w.ipv6_src_len h),
)
eval_eq-Decides field_ipv6_dst (ipv6 a) f w h = (
  _,
  refl,
  guard-Decides f.has_ipv6 _ (ipv6 f.ipv6_dst ∷ []) _ (ipv6_bytes f.ipv6_dst a w.ipv6_dst_len h),
)
eval_eq-Decides field_ipv6_addr (ipv6 a) f w h = (
  _,
  refl,
  guard-Decides f.has_ipv6 _ (ipv6 f.ipv6_src ∷ ipv6 f.ipv6_dst ∷ []) _ (
      or-Decides _ _ (ipv6_bytes f.ipv6_src a w.ipv6_src_len h)
        (ipv6_bytes f.ipv6_dst a w.ipv6_dst_len h)),
)
eval_eq-Decides field_tcp_srcport (port n) f w h =
    (_, refl, guard-Decides f.has_tcp _ (port f.tcp_src_port ∷ []) _ (port_number f.tcp_src_port n))
eval_eq-Decides field_tcp_dstport (port n) f w h =
    (_, refl, guard-Decides f.has_tcp _ (port f.tcp_dst_port ∷ []) _ (port_number f.tcp_dst_port n))
eval_eq-Decides field_tcp_port (port n) f w h = (
  _,
  refl,
  guard-Decides f.has_tcp _ (port f.tcp_src_port ∷ port f.tcp_dst_port ∷ []) _
      (or-Decides _ _ (port_number f.tcp_src_port n) (port_number f.tcp_dst_port n)),
)
eval_eq-Decides field_udp_srcport (port n) f w h =
    (_, refl, guard-Decides f.has_udp _ (port f.udp_src_port ∷ []) _ (port_number f.udp_src_port n))
eval_eq-Decides field_udp_dstport (port n) f w h =
    (_, refl, guard-Decides f.has_udp _ (port f.udp_dst_port ∷ []) _ (port_number f.udp_dst_port n))
eval_eq-Decides field_udp_port (port n) f w h = (
  _,
  refl,
  guard-Decides f.has_udp _ (port f.udp_src_port ∷ port f.udp_dst_port ∷ []) _
      (or-Decides _ _ (port_number f.udp_src_port n) (port_number f.udp_dst_port n)),
)
eval_eq-Decides _ _ f w h = elim h [ ]

eval_cmp-Decides :
    (field : Field) (c : Cmp) (v : Value) (f : Fields)
    → IsFields f
    → IsOfKind (kind_of field) v
    → Evaluates (eval_cmp field c v f) (Holds (cmp_node field c v) f)
unfolding eval_cmp
eval_cmp-Decides field cmp_eq v f w h =
    let (b, e, d) = eval_eq-Decides field v f w h in (b, rw e refl, d)
eval_cmp-Decides field cmp_ne v f w h =
    let (b, e, d) = eval_eq-Decides field v f w h in (not b, rw e refl, not-Decides b d)

-- On the fields of any packet a well-typed filter is evaluated to true exactly if it holds, without
-- following a null pointer or reading another member of a value than the one that was written.
pub eval_node-Decides :
    (n : Node) (f : Fields) → IsWellTyped n → IsFields f → Evaluates (eval_node n f) (Holds n f)
unfolding eval_node
eval_node-Decides null f t w = absurd t
eval_node-Decides (and_node l r) f t w =
    let (b, e, d) = eval_node-Decides l f t.0 w in
    let (c, e', d') = eval_node-Decides r f t.1 w in
    (b && c, rw (e) (both b c e'), and-Decides b c d d')
  where
    both :
        (b c : Bool)
        → eval_node r f ≡ some c
        → ◌≡◌ {A = Option Bool}
            (elim b [ true ↦ eval_node r f | false ↦ some false ])
            (some (b && c))
    both true c e = e
    both false c e = refl
eval_node-Decides (or_node l r) f t w =
    let (b, e, d) = eval_node-Decides l f t.0 w in
    let (c, e', d') = eval_node-Decides r f t.1 w in
    (b || c, rw (e) (either b c e'), or-Decides b c d d')
  where
    either :
        (b c : Bool)
        → eval_node r f ≡ some c
        → ◌≡◌ {A = Option Bool}
            (elim b [ true ↦ some true | false ↦ eval_node r f ])
            (some (b || c))
    either true c e = refl
    either false c e = e
eval_node-Decides (not_node n) f t w =
    let (b, e, d) = eval_node-Decides n f t w in (not b, rw e refl, not-Decides b d)
eval_node-Decides (cmp_node field c v) f t w = eval_cmp-Decides field c v f w t

-- A comparison by `!=` with a field of a layer that the packet does not carry is true.
pub eval_cmp-absent :
    (field : Field) (v : Value) (f : Fields)
    → IsFields f
    → IsOfKind (kind_of field) v
    → field_values field f ≡ []
    → eval_cmp field cmp_ne v f ≡ some true
eval_cmp-absent field v f w h e =
    let (b, q, d) = eval_cmp-Decides field cmp_ne v f w h in
    q ∙ ap some (d.complete (λ m. rw e at m))
