-- ===== src/Packet/Tcp.antt =====
-- network/tcpdump/custom_tcpdump.c: what `packet_handler` makes of a TCP segment in an IPv4 packet.
use oshome_work.Base.{ℕ, ◌+◌, ◌*◌, ◌/◌, ◌%◌, ◌<◌, ◌≡◌, some, List, [], ◌∷◌, arith, length}
use oshome_work.Packet.{
  tcp, ntohs, ntohl, address, read_tcp, read_transport, read_ipv4, packet_handler, seq_ack,
}

-- A number in network byte order.
abbrev pub htons : ℕ → List ℕ → List ℕ
htons n rest = n / 256 % 256 ∷ n % 256 ∷ rest

abbrev pub htonl : ℕ → List ℕ → List ℕ
htonl n rest = htons (n / 65536) (htons n rest)

-- A 48-bit number in network byte order.
abbrev pub mac : ℕ → List ℕ → List ℕ
mac n rest = htons (n / 4294967296) (htonl n rest)

-- What no line shows of a frame: the hardware addresses, and the fields of the IPv4 header other than
-- its version, length, protocol and addresses.
pub record Unshown : Type 0 where
  pub dst_mac : ℕ
  pub src_mac : ℕ
  pub tos : ℕ
  pub total_length : ℕ
  pub ident : ℕ
  pub fragment : ℕ
  pub ttl : ℕ
  pub header_sum : ℕ

-- An Ethernet frame with an IPv4 header without options, the addresses as 32-bit numbers, and a TCP
-- header with what follows its acknowledgement number.
pub tcp_frame : Unshown → (src dst sport dport seq ack : ℕ) → List ℕ → List ℕ
tcp_frame u src dst sport dport seq ack rest = mac u.dst_mac (
    mac u.src_mac (
      8
      ∷ 0
      ∷ 69
      ∷ u.tos
      ∷ htons u.total_length (
          htons u.ident (
            htons u.fragment (
              u.ttl
              ∷ 6
              ∷ htons u.header_sum (
                  htonl src
                    (htonl dst (htons sport (htons dport (htonl seq (htonl ack rest)))))))))))

word : (n : ℕ) → n < 65536 → n / 256 % 256 * 256 + n % 256 ≡ n
word n h = omega arith

double_word :
    (n : ℕ)
    → n < 4294967296
    → (n / 65536 / 256 % 256 * 256 + n / 65536 % 256) * 65536 + (n / 256 % 256 * 256 + n % 256) ≡ n
double_word n h = omega arith

-- A TCP segment in an Ethernet frame with an IPv4 packet without options, with any hardware
-- addresses and any other fields of the IPv4 header, with ports below 2^16 and sequence and
-- acknowledgement numbers below 2^32, is printed with the addresses, ports and numbers that were
-- sent, whatever follows them.
pub packet_handler-tcp_frame :
    (u : Unshown) (src dst sport dport seq ack : ℕ) (rest : List ℕ)
    → sport < 65536
    → dport < 65536
    → seq < 4294967296
    → ack < 4294967296
    → packet_handler (tcp_frame u src dst sport dport seq ack rest)
      ≡ some (
          some (record {
            src_ip = htonl src [];
            src_port = sport;
            dst_ip = htonl dst [];
            dst_port = dport;
            proto = tcp;
            caplen = length (tcp_frame u src dst sport dport seq ack rest);
            desc = seq_ack seq ack;
          }))
unfolding packet_handler read_ipv4 address read_transport read_tcp ntohs ntohl tcp_frame
packet_handler-tcp_frame u src dst sport dport seq ack rest hs hd hq ha =
    ground (arith, word sport hs, word dport hd, double_word seq hq, double_word ack ha)
