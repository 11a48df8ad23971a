-- ===== src/Packet.antt =====
-- network/tcpdump/custom_tcpdump.c: `packet_handler`, which decodes a captured packet. The packet is
-- its captured bytes, a read past them is `none`. Addresses stay bytes: `inet_ntop` prints them.
pub mod Decode
pub mod Tcp
mod Tests
use oshome_work.Base.{
  ℕ, zero, suc, ◌+◌, ◌*◌, ◌%◌, Option, none, some, List, [], ◌∷◌, ◌==◌, if◌then◌else◌, length,
  get_elem?,
}

-- What is printed after the time; `caplen` is the number of the captured bytes.
pub data Description : Type 0 where
  nothing : Description
  seq_ack : (seq ack : ℕ) → Description
  udp_len : ℕ → Description
  type_code : (type code : ℕ) → Description

pub data Protocol : Type 0 where
  tcp udp icmp ip icmpv6 ipv6 : Protocol

pub record Line : Type 0 where
  pub src_ip : List ℕ
  pub src_port : ℕ
  pub dst_ip : List ℕ
  pub dst_port : ℕ
  pub proto : Protocol
  pub caplen : ℕ
  pub desc : Description

-- The transport header: ports, protocol and description.
pub record Transport : Type 0 where
  pub source : ℕ
  pub dest : ℕ
  pub proto : Protocol
  pub desc : Description

infixl 5 ◌>>=◌
abbrev pub ◌>>=◌ {ℓ κ} : {A : Type ℓ} {B : Type κ} → Option A → (A → Option B) → Option B
none >>= f = none
some a >>= f = f a

-- `ntohs` of the two bytes at an offset.
unfoldable pub ntohs : List ℕ → ℕ → Option ℕ
ntohs packet i = do
  high ← get_elem? packet i
  low ← get_elem? packet (i + 1)
  some (high * 256 + low)

-- `ntohl` of the four bytes at an offset.
unfoldable pub ntohl : List ℕ → ℕ → Option ℕ
unfolding ntohs
ntohl packet i = do high ← ntohs packet i; low ← ntohs packet (i + 2); some (high * 65536 + low)

-- The bytes of an address, for the count that is left.
unfoldable pub address : List ℕ → (count i : ℕ) → Option (List ℕ)
address packet zero i = some []
address packet (suc count) i = do
  b ← get_elem? packet i
  rest ← address packet count (i + 1)
  some (b ∷ rest)

unfoldable pub read_tcp : List ℕ → ℕ → Option Transport
unfolding ntohs ntohl
read_tcp packet at_ = do
  source ← ntohs packet at_
  dest ← ntohs packet (at_ + 2)
  seq ← ntohl packet (at_ + 4)
  ack ← ntohl packet (at_ + 8)
  some (record { source = source; dest = dest; proto = tcp; desc = seq_ack seq ack })

unfoldable pub read_udp : List ℕ → ℕ → Option Transport
unfolding ntohs
read_udp packet at_ = do
  source ← ntohs packet at_
  dest ← ntohs packet (at_ + 2)
  len ← ntohs packet (at_ + 4)
  some (record { source = source; dest = dest; proto = udp; desc = udp_len len })

unfoldable pub read_icmp : Protocol → List ℕ → ℕ → Option Transport
read_icmp proto packet at_ = do
  type ← get_elem? packet at_
  code ← get_elem? packet (at_ + 1)
  some (record { source = 0; dest = 0; proto = proto; desc = type_code type code })

-- The branches on the protocol number: IPPROTO_TCP, IPPROTO_UDP, then the number of the ICMP.
unfoldable pub read_transport :
    (icmp_number : ℕ) (icmp_proto other : Protocol) → List ℕ → (number at_ : ℕ) → Option Transport
unfolding read_tcp read_udp read_icmp
read_transport icmp_number icmp_proto other packet number at_ =
    if number == 6
    then read_tcp packet at_
    else (if number == 17
        then read_udp packet at_
        else (if number == icmp_number
            then read_icmp icmp_proto packet at_
            else some (record { source = 0; dest = 0; proto = other; desc = nothing })))

-- `printf` of one line.
abbrev pub line_of : List ℕ → (src dst : List ℕ) → Transport → Option Line
line_of packet src dst t = some (record {
  src_ip = src;
  src_port = t.source;
  dst_ip = dst;
  dst_port = t.dest;
  proto = t.proto;
  caplen = length packet;
  desc = t.desc;
})

-- ETHERTYPE_IP: `ip_hl` is the low half of the first byte of the header, in words of four bytes.
unfoldable pub read_ipv4 : List ℕ → Option (Option Line)
unfolding address read_transport
read_ipv4 packet = do
  src ← address packet 4 26
  dst ← address packet 4 30
  first_byte ← get_elem? packet 14
  number ← get_elem? packet 23
  t ← read_transport 1 icmp ip packet number (14 + first_byte % 16 * 4)
  some (line_of packet src dst t)

-- ETHERTYPE_IPV6
unfoldable pub read_ipv6 : List ℕ → Option (Option Line)
unfolding address read_transport
read_ipv6 packet = do
  src ← address packet 16 22
  dst ← address packet 16 38
  number ← get_elem? packet 20
  t ← read_transport 58 icmpv6 ipv6 packet number 54
  some (line_of packet src dst t)

-- `packet_handler`: `none` for a read past the capture, `some none` for no line.
unfoldable pub packet_handler : List ℕ → Option (Option Line)
unfolding ntohs read_ipv4 read_ipv6
packet_handler packet = do
  eth_type ← ntohs packet 12
  (if eth_type == 2048
      then read_ipv4 packet
      else (if eth_type == 34525 then read_ipv6 packet else some none))
