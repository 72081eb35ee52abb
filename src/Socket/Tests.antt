-- ===== src/Socket/Tests.antt =====
-- Sockets of src/c/raw_socket.c on one device, and the theorems about them applied.
use my_wireshark.Base.{
  ℕ, ◌≡◌, refl, bit_or, true, false, List, [], ◌∷◌, Option, none, some, arith, inr, sym,
}
use my_wireshark.Base.Text.{codes}
use my_wireshark.Ring.{Block}
use my_wireshark.Socket.{
  iff_promisc, Answers, Process, SocketCtx, new_cursor, ifr_name, raw_socket_open, raw_socket_close,
}
use my_wireshark.Socket.Open.{HoldsSame, Opens, raw_socket_open-Opens}
use my_wireshark.Socket.Close.{FlagsRestored, raw_socket_open-close, raw_socket_open-promisc}

-- A kernel with one device: its state is the flags.
abbrev get : ℕ → List ℕ → Option ℕ
get flags name = some flags

abbrev put : ℕ → List ℕ → ℕ → Option ℕ
put old name flags = some flags

abbrev eth0 : List ℕ
eth0 = codes "eth0"

-- Up and running.
abbrev before : Process ℕ
before = record { kernel = 0x1043; fds = 3; maps = 0; contexts = 0 }

abbrev blocks : List Block
blocks =
    record { is_user = false; num_pkts = 0; offset_to_first_pkt = 0; header_at = λ _. none } ∷ []

abbrev answers : Answers
answers = record {
  socket = true;
  bind_to_device = true;
  packet_version = true;
  packet_rx_ring = true;
  mmap = some blocks;
  malloc = true;
}

abbrev ctx : SocketCtx
ctx = record { device_name = eth0; promisc_set_by_us = true; cursor = new_cursor blocks }

abbrev during : Process ℕ
during = record { kernel = 0x1143; fds = 4; maps = 1; contexts = 1 }

opens : raw_socket_open get put answers (some eth0) before ≡ (some ctx, during)
unfolding raw_socket_open
opens = refl

raw_socket_open-Opens_example :
    Opens get put answers eth0 before (raw_socket_open get put answers (some eth0) before)
raw_socket_open-Opens_example = raw_socket_open-Opens get put answers eth0 before

raw_socket_open-close_example :
    let after = raw_socket_close get put (some ctx) during in
    HoldsSame before after
    × FlagsRestored get put (ifr_name eth0) 0x1043 true before.kernel during.kernel after.kernel
raw_socket_open-close_example =
    raw_socket_open-close get put answers eth0 before during ctx 0x1043 refl (omega arith)
      (λ k e. inr (sym e)) opens

abbrev no_ring : Answers
no_ring = record answers { packet_rx_ring = false }

raw_socket_open-promisc_example :
    let (ctx', after) = raw_socket_open get put no_ring (some eth0) before in
    (ctx' ≡ none) × (get after.kernel (ifr_name eth0) ≡ some (bit_or 0x1043 iff_promisc))
raw_socket_open-promisc_example =
    raw_socket_open-promisc get put no_ring eth0 before 0x1043 (bit_or 0x1043 iff_promisc) refl refl
      refl refl refl refl refl
