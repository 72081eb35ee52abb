-- ===== src/Printer/Decode.antt =====
-- Which frames `print_packet` of src/cpp/packet_printer.cpp shows, and with which fields.
use my_wireshark.Base.{
  ℕ, ◌+◌, ◌*◌, ◌≤◌, ◌≡◌, refl, ap, ◌∙◌, Bool, true, false, List, Option, none, some, arith, length,
  length-drop, IsBytes, take, drop, take-IsBytes, drop-IsBytes, length-take_of, if_elim, ◌==◌,
  ==_iff, subst, sym, ◌⊎◌, inl, inr,
}
use my_wireshark.Base.Text.{codes}
use my_wireshark.Wire.{Parse, accepted, rejected, fault, WithPayload}
use my_wireshark.Wire.Reads.{Ensures}
use my_wireshark.Eth.{EthHeader}
use my_wireshark.Eth.Wire.{header_size, IsEthWindow, IsShort, eth_parse-Ensures}
use my_wireshark.Arp.Wire.{IsArp, IsOtherArp, arp_parse-Ensures}
use my_wireshark.Ip.{IpHeader}
use my_wireshark.Ip.Wire.{IsIpAccepted, IsIpMalformed, ip_parse-Ensures}
use my_wireshark.Ipv6.{Ipv6Header}
use my_wireshark.Ipv6.Wire.{IsIpv6, IsIpv6Malformed, ipv6_parse-Ensures}
use my_wireshark.Icmp.{icmp_family_v4, icmp_family_v6}
use my_wireshark.Disp.Node.{Node, null}
use my_wireshark.Disp.Eval.{Fields, dispfilter_matches}
use my_wireshark.Disp.Eval.Holds.{IsWellTyped, IsFields, Holds}
use my_wireshark.Disp.Eval.Correct.{Evaluates, eval_node-Decides}
use my_wireshark.Printer.{
  eth_type_ipv4, eth_type_arp, eth_type_ipv6, ip_proto_icmp, ip_proto_tcp, ip_proto_udp,
  ip_proto_icmpv6, nothing, upper_tcp, upper_udp, upper_icmp, packet, ipv6_packet, tcp_packet,
  udp_packet, icmp_packet, Line, Decoded, no_fields, with_eth, with_ip, with_ipv6, ipv6_upper,
  ip_upper, eth_upper, decode, finish, print_packet,
}
use my_wireshark.Printer.Layers.{
  icmpv4_verify-Gives, tcp_verify-Gives, udp_verify-Gives, tcp_verify_ipv6-Gives,
  udp_verify_ipv6-Gives, icmpv6_verify-Gives, on_parse-Ensures,
}
use my_wireshark.Printer.Shows.{
  LineShows, IsGood, no_fields-IsFields, with_eth-IsFields, with_ip-IsFields, with_ipv6-IsFields,
  tcp_case-Good, udp_case-Good, icmp_case-Good,
}

-- A slice of a frame has bytes, and its length if the frame reaches so far.
slice-IsBytes : (n k : ℕ) (xs : List ℕ) → IsBytes xs → IsBytes (take n (drop k xs))
slice-IsBytes n k xs h = take-IsBytes n (drop k xs) (drop-IsBytes k xs h)

slice-length : (n k : ℕ) (xs : List ℕ) → k + n ≤ length xs → length (take n (drop k xs)) ≡ n
slice-length n k xs h = length-take_of n (drop k xs) (omega (arith, length-drop k xs))

module _ (eth : EthHeader) (w : IsFields (with_eth eth no_fields)) (buffer : List ℕ) (len : ℕ)
    (bytes : IsBytes buffer) (inside : len ≤ length buffer) (small : len ≤ 65535) where
  ip_upper-Good :
      (r : WithPayload IpHeader)
      → IsIpAccepted buffer len bytes inside r
      → eth.ether_type ≡ eth_type_ipv4
      → Ensures IsGood ⊥ (ip_upper eth r (with_ip r.header (with_eth eth no_fields)))
  unfolding ip_upper
  ip_upper-Good r (window, version, words, total, end, valid, proto, src, dst) e =
      let big : 20 ≤ length buffer = omega (arith, window.1) in
      let hs : IsBytes r.header.src_addr =
        subst IsBytes (sym src) (slice-IsBytes 4 12 buffer bytes) in
      let hd : IsBytes r.header.dst_addr =
        subst IsBytes (sym dst) (slice-IsBytes 4 16 buffer bytes) in
      let ls : length r.header.src_addr ≡ 4 =
        ap length src ∙ slice-length 4 12 buffer (omega arith) in
      let ld : length r.header.dst_addr ≡ 4 =
        ap length dst ∙ slice-length 4 16 buffer (omega arith) in
      let hp : IsBytes r.payload =
        subst IsBytes (sym window.0) (drop-IsBytes (r.header.ihl * 4) buffer bytes) in
      let w' = with_ip-IsFields (with_eth eth no_fields) w r.header ls ld in
      let lp : r.payload_len ≤ 65535 = omega (arith, window.1) in
      let f = with_ip r.header (with_eth eth no_fields) in
      let bare = packet eth (some r.header) in
      if_elim (Ensures IsGood ⊥) (r.header.protocol == ip_proto_tcp)
        (λ q.
          tcp_case-Good f w' r.payload r.payload_len window.2 _
            (tcp_verify-Gives r.payload r.payload_len hp window.2 lp r.header.src_addr
              r.header.dst_addr hs hd ls ld)
            bare (e, refl) (tcp_packet eth r.header) λ tcp. (e, (==_iff _ _).0 q, refl))
        λ _.
          if_elim (Ensures IsGood ⊥) (r.header.protocol == ip_proto_udp)
            (λ q.
              udp_case-Good f w' r.payload r.payload_len window.2 _
                (udp_verify-Gives r.payload r.payload_len hp window.2 lp r.header.src_addr
                  r.header.dst_addr hs hd ls ld)
                bare (e, refl) (udp_packet eth r.header) λ udp. (e, (==_iff _ _).0 q, refl))
            λ _.
              if_elim (Ensures IsGood ⊥) (r.header.protocol == ip_proto_icmp)
                (λ q.
                  icmp_case-Good f w' r.payload r.payload_len window.2 _
                    (icmpv4_verify-Gives r.payload r.payload_len hp window.2 lp) bare (e, refl)
                    icmp_family_v4 (icmp_packet eth r.header) (codes " ICMP (truncated)")
                    λ icmp. (e, (==_iff _ _).0 q, refl))
                λ _. (w', (e, refl))

  ipv6_upper-Good :
      (r : WithPayload Ipv6Header)
      → IsIpv6 buffer len inside r
      → eth.ether_type ≡ eth_type_ipv6
      → Ensures IsGood ⊥ (ipv6_upper eth r (with_ipv6 r.header (with_eth eth no_fields)))
  unfolding ipv6_upper
  ipv6_upper-Good r (window, end, version, rest, next, src, dst) e =
      let big : 40 ≤ length buffer = omega (arith, window.1) in
      let hs : IsBytes r.header.src_addr =
        subst IsBytes (sym src) (slice-IsBytes 16 8 buffer bytes) in
      let hd : IsBytes r.header.dst_addr =
        subst IsBytes (sym dst) (slice-IsBytes 16 24 buffer bytes) in
      let ls : length r.header.src_addr ≡ 16 =
        ap length src ∙ slice-length 16 8 buffer (omega arith) in
      let ld : length r.header.dst_addr ≡ 16 =
        ap length dst ∙ slice-length 16 24 buffer (omega arith) in
      let hp : IsBytes r.payload = subst IsBytes (sym window.0) (drop-IsBytes 40 buffer bytes) in
      let w' = with_ipv6-IsFields (with_eth eth no_fields) w r.header ls ld in
      let lp : r.payload_len ≤ 65535 = omega (arith, window.1) in
      let f = with_ipv6 r.header (with_eth eth no_fields) in
      let bare = ipv6_packet eth r.header nothing in
      if_elim (Ensures IsGood ⊥) (r.header.next_header == ip_proto_tcp)
        (λ q.
          tcp_case-Good f w' r.payload r.payload_len window.2 _
            (tcp_verify_ipv6-Gives r.payload r.payload_len hp window.2 lp r.header.src_addr
              r.header.dst_addr hs hd ls ld)
            bare (e, refl) (λ tcp. ipv6_packet eth r.header (upper_tcp tcp))
            λ tcp. (e, (==_iff _ _).0 q, refl))
        λ _.
          if_elim (Ensures IsGood ⊥) (r.header.next_header == ip_proto_udp)
            (λ q.
              udp_case-Good f w' r.payload r.payload_len window.2 _
                (udp_verify_ipv6-Gives r.payload r.payload_len hp window.2 lp r.header.src_addr
                  r.header.dst_addr hs hd ls ld)
                bare (e, refl) (λ udp. ipv6_packet eth r.header (upper_udp udp))
                λ udp. (e, (==_iff _ _).0 q, refl))
            λ _.
              if_elim (Ensures IsGood ⊥) (r.header.next_header == ip_proto_icmpv6)
                (λ q.
                  icmp_case-Good f w' r.payload r.payload_len window.2 _
                    (icmpv6_verify-Gives r.payload r.payload_len hp window.2 lp r.header.src_addr
                      r.header.dst_addr hs hd ls ld)
                    bare (e, refl) icmp_family_v6
                    (λ icmp. ipv6_packet eth r.header (upper_icmp icmp))
                    (codes " ICMPv6 (truncated)") λ icmp. (e, (==_iff _ _).0 q, refl))
                λ _. (w', (e, refl))

eth_upper-Good :
    (r : WithPayload EthHeader)
    → IsFields (with_eth r.header no_fields)
    → IsBytes r.payload
    → r.payload_len ≤ length r.payload
    → r.payload_len ≤ 65535
    → Ensures IsGood ⊥ (eth_upper r (with_eth r.header no_fields))
unfolding eth_upper
eth_upper-Good r w bytes inside small =
    let eth = r.header in
    let n = r.payload_len in
    if_elim (Ensures IsGood ⊥) (eth.ether_type == eth_type_arp)
      (λ q.
        on_parse-Ensures IsGood (IsArp r.payload n inside) (IsOtherArp r.payload n inside) _ _ _
          (arp_parse-Ensures r.payload n inside) (λ arp _. (w, ((==_iff _ _).0 q, refl))) (w, refl))
      λ _.
        if_elim (Ensures IsGood ⊥) (eth.ether_type == eth_type_ipv6)
          (λ q.
            on_parse-Ensures IsGood (IsIpv6 r.payload n inside) (IsIpv6Malformed r.payload n inside)
              _ _ _ (ipv6_parse-Ensures r.payload n inside)
              (λ r' k. ipv6_upper-Good eth w r.payload n bytes inside small r' k ((==_iff _ _).0 q))
              (w, refl))
          λ _.
            if_elim (Ensures IsGood ⊥) (eth.ether_type == eth_type_ipv4)
              (λ q.
                on_parse-Ensures IsGood (IsIpAccepted r.payload n bytes inside)
                  (IsIpMalformed r.payload n bytes inside) _ _ _
                  (ip_parse-Ensures r.payload n bytes inside)
                  (λ r' k.
                    ip_upper-Good eth w r.payload n bytes inside small r' k ((==_iff _ _).0 q))
                  (w, (refl, refl, refl, refl)))
              λ _. (w, refl)

-- What the filter says of fields: a null filter and a null root match everything.
abbrev pub Selects : Option Node → Fields → Type 0
Selects none f = Unit
Selects (some null) f = Unit
Selects (some root) f = Holds root f

-- A filter as `dispfilter_compile` makes it, or none.
abbrev pub IsFilter : Option Node → Type 0
IsFilter none = Unit
IsFilter (some null) = Unit
IsFilter (some root) = IsWellTyped root

always : Evaluates (some true) Unit
always = (true, refl, record { sound = λ _. tt; complete = λ _. refl })

matches-Selects :
    (filter : Option Node) (f : Fields)
    → IsFilter filter
    → IsFields f
    → Evaluates (dispfilter_matches filter f) (Selects filter f)
unfolding dispfilter_matches
matches-Selects none f t w = always
matches-Selects (some null) f t w = always
matches-Selects (some root) f t w = eval_node-Decides root f t w

header_size-min : (h : EthHeader) → 14 ≤ header_size h
header_size-min h = go h.has_vlan
  where
    go : (b : Bool) → 14 ≤ (elim b [ true ↦ 18 | false ↦ 14 ])
    go true = omega arith
    go false = omega arith

module _ (frame : List ℕ) (len : ℕ) (bytes : IsBytes frame) (inside : len ≤ length frame)
    (small : len ≤ 65536) where
  decode-Good : Ensures IsGood ⊥ (decode frame len)
  unfolding decode
  decode-Good =
      on_parse-Ensures IsGood (IsEthWindow frame len) (IsShort frame len) _ _ _
        (eth_parse-Ensures frame len inside)
        (λ r (to, from, type, payload, whole, within, tag).
          let big : 14 ≤ length frame = omega (arith, header_size-min r.header) in
          eth_upper-Good r
            (with_eth-IsFields no_fields no_fields-IsFields r.header
              (ap length from ∙ slice-length 6 6 frame (omega arith))
              (ap length to ∙ slice-length 6 0 frame (omega arith)))
            (subst IsBytes (sym payload) (drop-IsBytes (header_size r.header) frame bytes)) within
            (omega (arith, header_size-min r.header)))
        (no_fields-IsFields, (refl, refl, refl, refl))

  -- Of a frame of up to 65536 bytes that are there, `print_packet` reads nothing outside the
  -- layers' buffers. It finds a line and the fields for the filter, which are those of the line's
  -- headers and of no others, and the types and protocols of those headers fit. It prints that
  -- line exactly if there is no filter, or one of the empty expression, or a well-typed one that
  -- holds of the fields.
  pub print_packet-Selects :
      (filter : Option Node)
      → IsFilter filter
      → (f : Fields) × (line : Line) × (decode frame len ≡ accepted (f, line))
        × IsFields f
        × LineShows f line
        × ((Selects filter f × (print_packet frame len filter ≡ accepted (some line)))
            ⊎ (¬ Selects filter f × (print_packet frame len filter ≡ accepted none)))
  unfolding print_packet finish
  print_packet-Selects filter t = go (decode frame len) refl decode-Good
    where
      go :
          (r : Parse Decoded)
          → decode frame len ≡ r
          → Ensures IsGood ⊥ r
          → (f : Fields) × (line : Line) × (decode frame len ≡ accepted (f, line))
            × IsFields f
            × LineShows f line
            × ((Selects filter f × (print_packet frame len filter ≡ accepted (some line)))
                ⊎ (¬ Selects filter f × (print_packet frame len filter ≡ accepted none)))
      go (accepted (f, line)) q (w, s) = (f, line, q, w, s, asked (matches-Selects filter f t w))
        where
          asked :
              Evaluates (dispfilter_matches filter f) (Selects filter f)
              → (Selects filter f × (print_packet frame len filter ≡ accepted (some line)))
                ⊎ (¬ Selects filter f × (print_packet frame len filter ≡ accepted none))
          asked (true, e, d) = inl (d.sound refl, rw (q, e) refl)
          asked (false, e, d) = inr ((λ h. cc (d.complete h)), rw (q, e) refl)
      go rejected q h = absurd h
      go fault q h = absurd h
