-- ===== src/Lib.antt =====
-- my_wireshark: a packet analyzer for Linux in C and C++.
--
-- The program captures Ethernet frames (src/c/raw_socket.c, src/c/capture_backend_linux.c), of which
-- the kernel keeps those that a BPF program accepts. That program is compiled from the text of the
-- option -f by src/c/capfilter.c. Frames go through a queue (src/cpp/packet_queue.cpp) to the printer
-- (src/cpp/packet_printer.cpp), which calls the header parsers of src/c layer by layer, verifies
-- checksums (src/c/checksum.c) and prints what the display filter (src/c/dispfilter.c) lets through.
--
-- Modules:
--   Base       names of the libraries, tests and lists over native numbers, the laws of | and &
--   Cap        src/c/capfilter.c
--     Token, Lexer        token_t, cf_lex, parse_ipv4_word
--     Node, Parser        node_t, parse_expr and what it calls
--     Insn, Codegen       struct sock_filter, compile_node, gen_push, pl_resolve, emit_leaf
--     Compile             capfilter_compile
--     Bpf                 bpf_interp_run of src/tests/bpf_interp.c, the machine programs run on
--     Matches             what a filter says of a frame, written without reference to the code
--   Checksum   src/c/checksum.c: its sums and folds, and the three verifications
--   Wire       the reads of bytes, words and runs of bytes that the header parsers make
--   Eth, Ip, Ipv6, Arp   eth_parse, ip_parse, ipv6_parse, arp_parse of src/c/*_parser.c
--   Transport  src/c/tcp_udp_parser.c: tcp_parse, udp_parse, and in Sums its checksum functions
--   Icmp       src/c/icmp_parser.c
--   Queue      src/cpp/packet_queue.cpp: push, pop and close, and sequences of calls
--   Disp       src/c/dispfilter.c
--     Token, Literal, Lexer   token_t, the literals of MAC, IPv4 and IPv6 addresses, df_lex
--     Node, Parser            df_node_t, parse_expr and what it calls
--     Compile                 dispfilter_compile
--     Eval                    dispfilter_fields_t, eval_node, eval_cmp, dispfilter_matches
--   Format     eth_mac_to_str, ip_addr_to_str and ipv6_addr_to_str of src/c/*_parser.c
--   Printer    src/cpp/packet_printer.cpp: print_packet and packet_printer_callback
--     Text       print of src/cpp/packet.cpp and of the classes derived from it
--     Dump       hex_dump; RoundTrip has a reader of such dumps
--   Capture    src/c/capture_backend_linux.c: run_impl and its .pcap file; Pcap has a reader of such files
--   Ring       src/c/raw_socket.c: raw_socket_recv and the ring of blocks, and the request to stop
--     Drain, Lap, Feed, Whole   a block read, several, what the capture gets of them, and a run on them
--   Socket     src/c/raw_socket.c: raw_socket_open and raw_socket_close; the counters and the filter
--   Devices    raw_socket_list_devices of src/c/raw_socket.c, and list_devices_impl
--   Pipeline   the capture thread and the main thread of src/main.cpp around the queue
--     Underway, Pushes, Pops, Steps   what holds between two turns, and what a turn does to it
--     Order, Moves, Live      the order of the frames, and the end of the threads
--     Whole                   the capture as the source of the frames
--   Main       src/main.cpp: Args has the command line, Session the start of the capture
--   Tests      headers for the parsers
--
-- An expression is the list of its bytes without the final NUL. The lexer's position in it is the
-- rest of the list, and its array of tokens the list of those written so far; the parser's position
-- is the list of tokens left. The errors of cf_fail are the constructors of Error. A write past the
-- tokens and a read through a null node, which C leaves undefined, are outcomes of their own. The
-- patch lists of the generator are lists: a compare leaf puts one entry into each, so their arrays,
-- which are as long as that of the instructions, have room. A pointer to bytes is the list of the
-- bytes from it on, and a read past its end an outcome of its own. An out parameter of a header parser
-- is part of the value that it returns.
--
-- In the display filter the union of a comparison's value is a type with a constructor for each member,
-- and reading another member than the one written an outcome of its own. The node of parse_primitive,
-- which C fills in after mk_node, is built at the end. The arrays of its packet fields are lists, with
-- their lengths as a hypothesis. A formatted address is the list of the bytes that snprintf writes,
-- at most the size of the array with the NUL.
--
-- Fuel: each lexer runs on one more than the bytes of the expression, since each round takes a byte;
-- each parser on four times the tokens and three, since three calls lie between two tokens that are
-- taken; the fold of the checksum on 3, since two rounds clear the high half of 32 bits. The loop of
-- raw_socket_recv has fuel for its rounds, of which a block with packets takes one. The threads run on
-- a list of turns: each frame takes at most two of them, and each thread one to end.
--
-- Not modelled: error texts, capfilter_free, dispfilter_free and capfilter_print, which only
-- write text or free memory. A line of the printer is the packet object with the text after it,
-- and Text and Dump say what is written for it; the time stamp and the length, which
-- print_packet passes on unread, are given there. The texts and the statistics that src/main.cpp
-- prints are left out too. Of the capture, the answers of the system calls and of
-- raw_socket_recv are given as a record. Of a socket, the flags of the devices belong to a
-- kernel that is a parameter, and what a theorem takes of its answers is one of its hypotheses.
-- Of a file that is open only the bytes that fwrite has taken are kept: what reaches the disk
-- before fclose is not determined. Of the ring, the headers of a block are what the kernel has
-- put at its offsets, and a call of poll has the answers that are given. Of the queue, the copy
-- of a frame's bytes before the lock and the wake-ups are left out: a call that has to wait is
-- one that cannot be made yet. Of the arrays of the two filters a write past the tokens is an
-- outcome, and so is a jump patched in an instruction that is not written; the nodes and
-- instructions are counted, and the parsers are shown to stay at or before a TOK_END. The octets
-- and groups of an address and the lists of patches are lists, of which an overflow of the C
-- array has no outcome of its own.
pub mod Arp
pub mod Base
pub mod Cap
pub mod Capture
pub mod Checksum
pub mod Devices
pub mod Disp
pub mod Eth
pub mod Format
pub mod Icmp
pub mod Ip
pub mod Ipv6
pub mod Main
pub mod Pipeline
pub mod Printer
pub mod Queue
pub mod Ring
pub mod Socket
pub mod Tests
pub mod Transport
pub mod Wire
