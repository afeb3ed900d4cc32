-- ===== src/ThinAddr/Tests.antt =====
-- src/thin_addr.rs at concrete addresses.
use vt_muxer.Common.{
  ℕ, zero, suc, ◌≡◌, ◌≢◌, refl, ◌↔◌, true, Option, none, some, List, [], ◌∷◌, arith, Ordering,
}
use vt_muxer.ThinAddr.Std.{StdIp, StdSocket, socket_new}
use vt_muxer.ThinAddr.{SocketAddr, to_std, from_std, eq, cmp, partial_cmp}
use vt_muxer.ThinAddr.RoundTrip.{from_std-to_std, to_std-from_std, canonical}
use vt_muxer.ThinAddr.Order.{eq-cmp_iff, partial_cmp_blind}
use vt_muxer.ThinAddr.Bytes.{bytes_of-injective}
use vt_muxer.ThinAddr.Text.{display, from_str, SocketReads, from_str-display}

-- ::1, at a port.
abbrev local : ℕ → ℕ → SocketAddr
local first second = record {
  ip = record { octets = 0 ∷ 0 ∷ 0 ∷ 0 ∷ 0 ∷ 0 ∷ 0 ∷ 0 ∷ 0 ∷ 0 ∷ 0 ∷ 0 ∷ 0 ∷ 0 ∷ 0 ∷ 1 ∷ [] };
  port = record { first = first; second = second };
}

-- ::ffff:127.0.0.1, at port 8080.
abbrev mapped : StdSocket
mapped =
    StdSocket.sock_v6 (0 ∷ 0 ∷ 0 ∷ 0 ∷ 0 ∷ 0 ∷ 0 ∷ 0 ∷ 0 ∷ 0 ∷ 255 ∷ 255 ∷ 127 ∷ 0 ∷ 0 ∷ 1 ∷ [])
      8080 7 3

from_std-to_std_example : from_std (to_std (local 31 144)) ≡ local 31 144
from_std-to_std_example = from_std-to_std (local 31 144) (omega arith)

to_std-from_std_example :
    to_std (from_std mapped)
    ≡ socket_new
        (canonical
          (StdIp.v6 (0 ∷ 0 ∷ 0 ∷ 0 ∷ 0 ∷ 0 ∷ 0 ∷ 0 ∷ 0 ∷ 0 ∷ 255 ∷ 255 ∷ 127 ∷ 0 ∷ 0 ∷ 1 ∷ [])))
        8080
to_std-from_std_example = to_std-from_std mapped (omega arith)

eq-cmp_iff_example :
    ((eq (local 0 80) (local 31 144) ≡ true) ↔ (local 0 80 ≡ local 31 144))
    × ((cmp (local 0 80) (local 31 144) ≡ Ordering.eq) ↔ (local 0 80 ≡ local 31 144))
eq-cmp_iff_example = eq-cmp_iff (local 0 80) (local 31 144) (omega arith) (omega arith)

local_ne : local 0 80 ≢ local 31 144
local_ne e = cc

partial_cmp_blind_example :
    (partial_cmp (local 0 80) (local 31 144) ≡ some Ordering.eq)
    × (cmp (local 0 80) (local 31 144) ≢ Ordering.eq)
    × (eq (local 0 80) (local 31 144) ≢ true)
partial_cmp_blind_example =
    partial_cmp_blind (local 0 80) (local 31 144) (omega arith) (omega arith) refl local_ne

bytes_of-injective_example : local 0 80 ≡ local 0 80
bytes_of-injective_example =
    bytes_of-injective (local 0 80) (local 0 80) (omega arith) (omega arith) refl

-- A text of numbers, which shows no flow information; a text of another form is no address.
abbrev shown : StdSocket → List ℕ
shown (StdSocket.sock_v4 a b c d port) = 0 ∷ a ∷ b ∷ c ∷ d ∷ port ∷ []
shown (StdSocket.sock_v6 octets port flow scope) = 1 ∷ port ∷ scope ∷ octets

abbrev parsed : List ℕ → Option StdSocket
parsed (zero ∷ a ∷ b ∷ c ∷ d ∷ port ∷ []) = some (StdSocket.sock_v4 a b c d port)
parsed (suc zero ∷ port ∷ scope ∷ octets) = some (StdSocket.sock_v6 octets port 0 scope)
parsed _ = none

shown-SocketReads : SocketReads shown parsed
shown-SocketReads (StdIp.v4 a b c d) port i p = refl
shown-SocketReads (StdIp.v6 octets) port i p = refl

from_str-display_example :
    from_str shown parsed (display shown parsed (local 31 144)) ≡ some (local 31 144)
from_str-display_example =
    from_str-display shown parsed shown-SocketReads (local 31 144) (omega arith)
