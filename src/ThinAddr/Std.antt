-- ===== src/ThinAddr/Std.antt =====
-- The parts of `std::net` that src/thin_addr.rs uses.
use vt_muxer.Common.{ℕ, ◌==◌, ◌&&◌, List, [], ◌∷◌, if◌then◌else◌}
use vt_muxer.Common.Bytes.{to_be_bytes}

-- `std::net::IpAddr`: the four octets of an `Ipv4Addr`, or the sixteen of an `Ipv6Addr`.
pub data StdIp : Type 0 where
  v4 : ℕ → ℕ → ℕ → ℕ → StdIp
  v6 : List ℕ → StdIp

-- `std::net::SocketAddr`: an address and a port; a `SocketAddrV6` has flow information and a scope
-- id besides.
pub data StdSocket : Type 0 where
  sock_v4 : ℕ → ℕ → ℕ → ℕ → ℕ → StdSocket
  sock_v6 : List ℕ → ℕ → ℕ → ℕ → StdSocket

abbrev pub socket_new : StdIp → ℕ → StdSocket
socket_new (StdIp.v4 a b c d) port = StdSocket.sock_v4 a b c d port
socket_new (StdIp.v6 octets) port = StdSocket.sock_v6 octets port 0 0

abbrev pub socket_ip : StdSocket → StdIp
socket_ip (StdSocket.sock_v4 a b c d port) = StdIp.v4 a b c d
socket_ip (StdSocket.sock_v6 octets port flow scope) = StdIp.v6 octets

abbrev pub socket_port : StdSocket → ℕ
socket_port (StdSocket.sock_v4 a b c d port) = port
socket_port (StdSocket.sock_v6 octets port flow scope) = port

-- `Ipv6Addr::from_bits`, on a `u128`.
abbrev pub from_bits : ℕ → List ℕ
from_bits n = to_be_bytes 16 n

-- `Ipv4Addr::to_ipv6_mapped`.
abbrev pub to_ipv6_mapped : ℕ → ℕ → ℕ → ℕ → List ℕ
to_ipv6_mapped a b c d = 0 ∷ 0 ∷ 0 ∷ 0 ∷ 0 ∷ 0 ∷ 0 ∷ 0 ∷ 0 ∷ 0 ∷ 255 ∷ 255 ∷ a ∷ b ∷ c ∷ d ∷ []

-- The octets left after `n` zeros and two 0xff, if there are exactly four, as an IPv4 address.
unfoldable pub unmapped : List ℕ → StdIp → StdIp
unmapped (f ∷ g ∷ a ∷ b ∷ c ∷ d ∷ []) whole =
    if f == 255 && g == 255 then StdIp.v4 a b c d else whole
unmapped _ whole = whole

unfoldable pub after_zeros : ℕ → List ℕ → StdIp → StdIp
unfolding unmapped
after_zeros ℕ.zero xs whole = unmapped xs whole
after_zeros (ℕ.suc n) [] whole = whole
after_zeros (ℕ.suc n) (x ∷ xs) whole = if x == 0 then after_zeros n xs whole else whole

-- `Ipv6Addr::to_canonical`: a mapped IPv4 address is taken out, any other address is kept.
unfoldable pub to_canonical : List ℕ → StdIp
unfolding after_zeros
to_canonical octets = after_zeros 10 octets (StdIp.v6 octets)
