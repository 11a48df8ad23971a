-- ===== src/Packet/Tests.antt =====
-- network/tcpdump/custom_tcpdump.c: the theorems at two captures.
use oshome_work.Base.{ℕ, ◌≡◌, Option, some, List, [], arith, length, replicate, length-replicate}
use oshome_work.Packet.Decode.{packet_handler-some}
use oshome_work.Packet.Tcp.{Unshown, htonl, packet_handler-tcp_frame, tcp_frame}
use oshome_work.Packet.{Line, packet_handler, tcp, seq_ack}

long : List ℕ
long = replicate 90 8

packet_handler-some_example : (r : Option Line) × (packet_handler long ≡ some r)
unfolding long
packet_handler-some_example =
    packet_handler-some long
      (let e : length long ≡ 90 = length-replicate {A = ℕ} 90 8 in omega (arith, e))

-- A packet of 40 bytes that must not be fragmented.
abbrev unshown : Unshown
unshown = record {
  dst_mac = 2199023255552;
  src_mac = 4398046511104;
  tos = 16;
  total_length = 40;
  ident = 4660;
  fragment = 16384;
  ttl = 57;
  header_sum = 45000;
}

packet_handler-tcp_frame_example :
    packet_handler (tcp_frame unshown 3232235777 3232235778 443 51000 7 9 [])
    ≡ some (
        some (record {
          src_ip = htonl 3232235777 [];
          src_port = 443;
          dst_ip = htonl 3232235778 [];
          dst_port = 51000;
          proto = tcp;
          caplen = length (tcp_frame unshown 3232235777 3232235778 443 51000 7 9 []);
          desc = seq_ack 7 9;
        }))
packet_handler-tcp_frame_example =
    packet_handler-tcp_frame unshown 3232235777 3232235778 443 51000 7 9 [] (omega arith)
      (omega arith) (omega arith) (omega arith)
