-- ===== src/Packet/Decode.antt =====
-- network/tcpdump/custom_tcpdump.c: which captures `packet_handler` reads to the end.
use oshome_work.Base.{
  ℕ, zero, suc, ◌+◌, ◌*◌, ◌%◌, ◌≤◌, ◌<◌, ◌≡◌, refl, inl, inr, Option, none, some, List, [], ◌∷◌,
  arith, ◌==◌, Bool-cases, Option-cases, length, get_elem?,
}
use oshome_work.Packet.{
  ◌>>=◌, Line, icmp, ip, icmpv6, ipv6, ntohs, ntohl, address, read_tcp, read_udp, read_icmp,
  read_transport, read_ipv4, read_ipv6, packet_handler, Protocol,
}

-- The result is there.
IsRead : {A : Type 0} → Option A → Type 0
IsRead {A} o = (a : A) × (o ≡ some a)

chain :
    {A B : Type 0} (o : Option A) (f : A → Option B)
    → IsRead o
    → ((a : A) → IsRead (f a))
    → IsRead (o >>= f)
unfolding IsRead
chain none f (a, e) h = absurd (ground arith)
chain (some x) f (a, e) h = h x

get_elem?-IsRead : (xs : List ℕ) (i : ℕ) → i < length xs → IsRead (get_elem? xs i)
unfolding IsRead
get_elem?-IsRead [] i h = absurd (omega arith)
get_elem?-IsRead (x ∷ xs) zero h = (x, refl)
get_elem?-IsRead (x ∷ xs) (suc i) h = get_elem?-IsRead xs i (omega arith)

ntohs-IsRead : (xs : List ℕ) (i : ℕ) → i + 1 < length xs → IsRead (ntohs xs i)
unfolding ntohs IsRead
ntohs-IsRead xs i h =
    chain _ _ (get_elem?-IsRead xs i (omega arith))
      λ a. chain _ _ (get_elem?-IsRead xs (i + 1) h) λ b. (_, refl)

ntohl-IsRead : (xs : List ℕ) (i : ℕ) → i + 3 < length xs → IsRead (ntohl xs i)
unfolding ntohl IsRead
ntohl-IsRead xs i h =
    chain _ _ (ntohs-IsRead xs i (omega arith))
      λ a. chain _ _ (ntohs-IsRead xs (i + 2) (omega arith)) λ b. (_, refl)

address-IsRead : (xs : List ℕ) (count i : ℕ) → i + count ≤ length xs → IsRead (address xs count i)
unfolding address IsRead
address-IsRead xs zero i h = ([], refl)
address-IsRead xs (suc count) i h =
    chain _ _ (get_elem?-IsRead xs i (omega arith))
      λ a. chain _ _ (address-IsRead xs count (i + 1) (omega arith)) λ b. (_, refl)

module _ (xs : List ℕ) (i : ℕ) (h : i + 12 ≤ length xs) where
  read_tcp-IsRead : IsRead (read_tcp xs i)
  unfolding read_tcp IsRead
  read_tcp-IsRead = chain _ _ (ntohs-IsRead xs i (omega arith)) λ a.
      chain _ _ (ntohs-IsRead xs (i + 2) (omega arith)) λ b.
        chain _ _ (ntohl-IsRead xs (i + 4) (omega arith))
          λ c. chain _ _ (ntohl-IsRead xs (i + 8) (omega arith)) λ d. (_, refl)

  read_udp-IsRead : IsRead (read_udp xs i)
  unfolding read_udp IsRead
  read_udp-IsRead = chain _ _ (ntohs-IsRead xs i (omega arith)) λ a.
      chain _ _ (ntohs-IsRead xs (i + 2) (omega arith))
        λ b. chain _ _ (ntohs-IsRead xs (i + 4) (omega arith)) λ c. (_, refl)

  read_icmp-IsRead : (p : Protocol) → IsRead (read_icmp p xs i)
  unfolding read_icmp IsRead
  read_icmp-IsRead p =
      chain _ _ (get_elem?-IsRead xs i (omega arith))
        λ a. chain _ _ (get_elem?-IsRead xs (i + 1) (omega arith)) λ b. (_, refl)

  read_transport-IsRead :
      (icmp_number number : ℕ) (p q : Protocol)
      → IsRead (read_transport icmp_number p q xs number i)
  unfolding read_transport IsRead
  read_transport-IsRead icmp_number number p q = elim (Bool-cases (number == 6)) [
    | inl e ↦ rw e read_tcp-IsRead
    | inr e ↦ elim (Bool-cases (number == 17)) [
      | inl e' ↦ rw (e, e') read_udp-IsRead
      | inr e' ↦ elim (Bool-cases (number == icmp_number)) [
        | inl e'' ↦ rw (e, e', e'') (read_icmp-IsRead p)
        | inr e'' ↦ rw (e, e', e'') (_, refl)
      ]
    ]
  ]

-- Every capture of at least 86 bytes is decoded or passed over without a read past its end,
-- whatever bytes it holds.
pub packet_handler-some :
    (packet : List ℕ) → 86 ≤ length packet → (r : Option Line) × (packet_handler packet ≡ some r)
unfolding packet_handler read_ipv4 read_ipv6 IsRead
packet_handler-some packet h = chain _ _ (ntohs-IsRead packet 12 (omega arith)) λ eth_type.
    elim (Bool-cases (eth_type == 2048)) [
      | inl e ↦ rw e (
          chain _ _ (address-IsRead packet 4 26 (omega arith)) λ src.
            chain _ _ (address-IsRead packet 4 30 (omega arith)) λ dst.
              chain _ _ (get_elem?-IsRead packet 14 (omega arith)) λ b.
                chain _ _ (get_elem?-IsRead packet 23 (omega arith)) λ number.
                  chain _ _
                    (read_transport-IsRead packet (14 + b % 16 * 4) (omega arith) 1 number icmp ip)
                    λ t. (_, refl))
      | inr e ↦ elim (Bool-cases (eth_type == 34525)) [
        | inl e' ↦
            rw (e, e')
              (chain _ _ (address-IsRead packet 16 22 (omega arith)) λ src.
                chain _ _ (address-IsRead packet 16 38 (omega arith)) λ dst.
                  chain _ _ (get_elem?-IsRead packet 20 (omega arith)) λ number.
                    chain _ _ (read_transport-IsRead packet 54 (omega arith) 58 number icmpv6 ipv6)
                      λ t. (_, refl))
        | inr e' ↦ rw (e, e') (_, refl)
      ]
    ]

get_elem?-none : (xs : List ℕ) (i : ℕ) → length xs ≤ i → get_elem? xs i ≡ none
get_elem?-none [] i h = refl
get_elem?-none (x ∷ xs) zero h = absurd (omega arith)
get_elem?-none (x ∷ xs) (suc i) h = get_elem?-none xs i (omega arith)

-- Every capture of fewer than 14 bytes is read past its end.
pub packet_handler_short : (packet : List ℕ) → length packet < 14 → packet_handler packet ≡ none
unfolding packet_handler ntohs
packet_handler_short packet h = elim (Option-cases (get_elem? packet 12)) [
  | inl e ↦ ground (arith, e)
  | inr (a, e) ↦ ground (arith, e, get_elem?-none packet 13 (omega arith))
]
