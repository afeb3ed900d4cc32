-- ===== src/ThinAddr/Text.antt =====
-- src/thin_addr.rs: `Display` and `FromStr`, which go through the addresses of `std::net`.
use vt_muxer.Common.{ℕ, ◌≡◌, ◌<◌, ap, Option, none, some}
use vt_muxer.ThinAddr.Std.{StdIp, StdSocket, socket_new}
use vt_muxer.ThinAddr.{IpAddr, IsIp, SocketAddr, IsSocket, ip_to_std, ip_from_std, to_std, from_std}
use vt_muxer.ThinAddr.RoundTrip.{IsStdIp, ip_from_std-ip_to_std, ip_to_std-IsStdIp, from_std-to_std}
use vt_muxer.Integers
use vt_muxer.Integers.RoundTrip.{get-lt}

-- The text, the formatter and the parser of `std::net::IpAddr`.
module _ {ℓ} {Text : Type ℓ} (format : StdIp → Text) (parse : Text → Option StdIp) where
  unfoldable pub ip_display : IpAddr → Text
  ip_display a = format (ip_to_std a)

  unfoldable pub ip_from_str : Text → Option IpAddr
  ip_from_str text = elim (parse text) [ some i ↦ some (ip_from_std i) | none ↦ none ]

  -- The parser of `std::net` reads what its formatter writes for an address of `std::net`.
  abbrev pub IpReads : Type 0
  IpReads = (i : StdIp) → IsStdIp i → parse (format i) ≡ some i

  -- A valid IP address is read back from the text that displays it.
  pub ip_from_str-ip_display : IpReads → (a : IpAddr) → IsIp a → ip_from_str (ip_display a) ≡ some a
  unfolding ip_from_str ip_display
  ip_from_str-ip_display reads a v =
      rw (reads (ip_to_std a) (ip_to_std-IsStdIp a v), ip_from_str)
        (ap some (ip_from_std-ip_to_std a v))

-- Those of `std::net::SocketAddr`.
module _ {ℓ} {Text : Type ℓ} (format : StdSocket → Text) (parse : Text → Option StdSocket) where
  unfoldable pub display : SocketAddr → Text
  display s = format (to_std s)

  unfoldable pub from_str : Text → Option SocketAddr
  from_str text = elim (parse text) [ some s ↦ some (from_std s) | none ↦ none ]

  -- The parser reads what the formatter writes for a socket address without flow information and
  -- scope id; the text does not show the former.
  abbrev pub SocketReads : Type 0
  SocketReads =
      (i : StdIp) (port : ℕ)
      → IsStdIp i
      → port < 65536
      → parse (format (socket_new i port)) ≡ some (socket_new i port)

  -- If the parser of `std::net` reads what its formatter writes for socket addresses without flow
  -- information and scope id, then a valid address is read back from the text that displays it.
  pub from_str-display : SocketReads → (s : SocketAddr) → IsSocket s → from_str (display s) ≡ some s
  unfolding from_str display to_std
  from_str-display reads s v =
      rw
        (
          reads (ip_to_std s.ip) (Integers.get s.port) (ip_to_std-IsStdIp s.ip v.ip_valid)
              (get-lt s.port v.port_valid),
          from_str,
        )
        (ap some (unfold to_std in from_std-to_std s v))
