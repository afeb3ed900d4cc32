-- ===== src/PacketBuffer.antt =====
-- src/packet_buffer.rs: one outgoing frame, filled by `push` while it may already be going out.
pub mod Content
pub mod Push
pub mod Frame
mod Tests
use vt_muxer.Common.{
  ℕ, ◌+◌, ◌-◌, ◌%◌, ◌≡◌, ◌≤◌, compare, Ordering, Bool, true, false, Option, none, some, List, [],
  ◌∷◌, ◌++◌, ◌==◌, ltb, leb, if◌then◌else◌, length, take, drop,
}
use vt_muxer.Common.Bytes.{AreBytes}
use vt_muxer.Integers
use vt_muxer.Integers.{NetworkOrderU16, IsU16}
use vt_muxer.ThinAddr
use vt_muxer.ThinAddr.{SocketAddr, IsSocket}

-- `PACKET_SIZE` is `u16::MAX`.
abbrev pub packet_size_max : ℕ
packet_size_max = 65535

-- `LEN_FIELD_CUTOFF`: the address and the first byte of the length.
abbrev pub len_field_cutoff : ℕ
len_field_cutoff = 18 + 1

-- `data` is the array behind the header; what `push` has not written yet holds any bytes.
pub record PacketBuffer : Type 0 where
  pub socket_addr : SocketAddr
  pub len : NetworkOrderU16
  pub array : List ℕ

pub record IsPacket (b : PacketBuffer) : Type 0 where
  pub addr_valid : IsSocket b.socket_addr
  pub len_valid : IsU16 b.len
  pub array_size : length b.array ≡ packet_size_max
  pub array_bytes : AreBytes b.array

-- `Construct::init`: the array is left as it is found.
unfoldable pub init : List ℕ → SocketAddr → PacketBuffer
init array socket = record { socket_addr = socket; len = Integers.new 0; array = array }

unfoldable pub addr : PacketBuffer → SocketAddr
addr b = b.socket_addr

unfoldable pub packet_size : PacketBuffer → ℕ
packet_size b = Integers.get b.len

unfoldable pub is_full : PacketBuffer → Bool
unfolding packet_size
is_full b = packet_size b == packet_size_max

unfoldable pub must_flush_for : PacketBuffer → ℕ → Bool
must_flush_for b written = elim (compare written len_field_cutoff) [
  | Ordering.lt ↦ is_full b
  | Ordering.eq ↦ b.len.second == 255
  | Ordering.gt ↦ true
]

unfoldable pub is_empty : PacketBuffer → Bool
unfolding packet_size
is_empty b = packet_size b == 0

unfoldable pub clear : PacketBuffer → PacketBuffer
clear b = record b { len = Integers.new 0 }

-- `max_len` of `push`; `none` is its early return.
unfoldable pub max_len : PacketBuffer → ℕ → Option ℕ
max_len b written = elim (compare written len_field_cutoff) [
  | Ordering.lt ↦ some (packet_size_max - Integers.get b.len)
  | Ordering.eq ↦ some (255 - b.len.second)
  | Ordering.gt ↦ none
]

-- `copy_nonoverlapping` of `src` to the offset `at` of the array.
unfoldable pub copy_to : List ℕ → ℕ → List ℕ → List ℕ
copy_to array at src = take at array ++ (src ++ drop (at + length src) array)

-- The length and the copy: `len.unchecked_add(last_len)` is the sum, which never overflows here.
unfoldable pub append_to : PacketBuffer → List ℕ → ℕ → PacketBuffer
append_to b src n =
    let last = Integers.get b.len in
    record b { len = Integers.new (n + last); array = copy_to b.array last (take n src) }

-- `len` of `push`: the smaller of `max_len` and `data.len()`, the latter cast to `u16`.
unfoldable pub push_count : List ℕ → ℕ → ℕ
push_count src room = if ltb room (length src) then room else length src % 65536

unfoldable pub push : PacketBuffer → List ℕ → ℕ → PacketBuffer × ℕ
push b src written = elim (max_len b written) [
  | none ↦ (b, 0)
  | some room ↦ (append_to b src (push_count src room), push_count src room)
]

-- The header and the first `len` bytes of the array.
unfoldable pub bytes : PacketBuffer → List ℕ
bytes b =
    ThinAddr.bytes_of b.socket_addr
    ++ (b.len.first ∷ b.len.second ∷ take (Integers.get b.len) b.array)

-- `&self.bytes()[written..]`; `none` is the panic of a slice that starts past the end.
unfoldable pub bytes_from : PacketBuffer → ℕ → Option (List ℕ)
bytes_from b written =
    if leb written (length (bytes b)) then some (drop written (bytes b)) else none
