-- ===== src/PacketBuffer/Frame.antt =====
-- src/packet_buffer.rs: the bytes that go out, as a frame, and under a `push` that comes late.
use vt_muxer.Common.{
  ℕ, ◌+◌, ◌≤◌, ◌≡◌, refl, sym, ap, ap₂, ◌∙◌, ◌⊎◌, inl, inr, some, List, [], ◌∷◌, ◌++◌, arith,
  length-append, take, drop, take-append_le, take-append_length, drop-append_length, append_assoc,
  Option-cases,
}
use vt_muxer.Common.Bytes.{AreBytes}
use vt_muxer.Integers
use vt_muxer.ThinAddr
use vt_muxer.ThinAddr.Bytes.{length-bytes_of}
use vt_muxer.Protocol.{MuxFrameHeader, IsHeader, header_bytes, header_of_bytes, header_size}
use vt_muxer.Protocol.Layout.{length-header_bytes, header_of_bytes-header_bytes}
use vt_muxer.PacketBuffer.{PacketBuffer, IsPacket, max_len, append_to, push_count, push, bytes}
use vt_muxer.PacketBuffer.Content.{payload}
use vt_muxer.PacketBuffer.Push.{max_len-le, push_count-eq, push-Pushed}

-- The header that a packet starts with.
abbrev pub header : PacketBuffer → MuxFrameHeader
header b = record { socket = b.socket_addr; len = b.len }

pub header-IsHeader : {b : PacketBuffer} → IsPacket b → IsHeader (header b)
header-IsHeader v = record { socket_valid = v.addr_valid; len_valid = v.len_valid }

pub bytes-eq : (b : PacketBuffer) → bytes b ≡ header_bytes (header b) ++ payload b
unfolding bytes header_bytes
bytes-eq b =
    sym
      (append_assoc (ThinAddr.bytes_of b.socket_addr) (b.len.first ∷ b.len.second ∷ []) (payload b))

-- A peer that reads the bytes of a valid packet finds in the first 20 the header with the packet's
-- address and length, and behind them the payload.
pub bytes_read :
    {b : PacketBuffer}
    → IsPacket b
    → (header_of_bytes (take header_size (bytes b)) ≡ header b)
      × (drop header_size (bytes b) ≡ payload b)
bytes_read {b} v =
    let twenty = sym (length-header_bytes (header b) (header-IsHeader v)) in
    let front = take-append_length header_size (header_bytes (header b)) (payload b) twenty in
    let back = drop-append_length header_size (header_bytes (header b)) (payload b) twenty in
    (
      ap (λ xs. header_of_bytes (take header_size xs)) (bytes-eq b)
          ∙ ap header_of_bytes front
          ∙ header_of_bytes-header_bytes (header b) (header-IsHeader v),
      ap (drop header_size) (bytes-eq b) ∙ back,
    )

-- The first 19 bytes are the address and the first byte of the length.
take-bytes :
    (b : PacketBuffer) (written : ℕ)
    → IsPacket b
    → written ≤ 19
    → take written (bytes b) ≡ take written (ThinAddr.bytes_of b.socket_addr ++ (b.len.first ∷ []))
unfolding bytes
take-bytes b written v h =
    ap (take written) (
      sym (
        append_assoc (ThinAddr.bytes_of b.socket_addr) (b.len.first ∷ [])
          (b.len.second ∷ payload b)))
    ∙ take-append_le written (ThinAddr.bytes_of b.socket_addr ++ (b.len.first ∷ []))
        (b.len.second ∷ payload b)
        (omega (
          arith,
          length-append (ThinAddr.bytes_of b.socket_addr) (b.len.first ∷ []),
          length-bytes_of b.socket_addr v.addr_valid,
        ))

max_len-cases :
    (b : PacketBuffer) (written : ℕ) {room : ℕ}
    → IsPacket b
    → max_len b written ≡ some room
    → (written ≤ 18) ⊎ ((written ≡ 19) × (room + b.len.second ≤ 255))
unfolding max_len
max_len-cases b written v h = let byte = v.len_valid.second_byte in ground arith

first-append_to :
    (b : PacketBuffer) (src : List ℕ) (n : ℕ)
    → IsPacket b
    → n + b.len.second ≤ 255
    → (append_to b src n).len.first ≡ b.len.first
unfolding append_to Integers.get Integers.new
first-append_to b src n v h = omega (arith, v.len_valid.first_byte)

-- The bytes of the header that are already out depend on what a late append leaves alone.
take-bytes_same :
    (b c : PacketBuffer) (written : ℕ)
    → IsPacket b
    → IsPacket c
    → c.socket_addr ≡ b.socket_addr
    → (written ≤ 18) ⊎ ((written ≡ 19) × (c.len.first ≡ b.len.first))
    → take written (bytes c) ≡ take written (bytes b)
take-bytes_same b c written vb vc same (inl early) =
    take-bytes c written vc (omega arith)
    ∙ short c vc
    ∙ ap (λ s. take written (ThinAddr.bytes_of s)) same
    ∙ sym (short b vb)
    ∙ sym (take-bytes b written vb (omega arith))
  where
    short :
        (d : PacketBuffer)
        → IsPacket d
        → take written (ThinAddr.bytes_of d.socket_addr ++ (d.len.first ∷ []))
          ≡ take written (ThinAddr.bytes_of d.socket_addr)
    short d vd =
        take-append_le written (ThinAddr.bytes_of d.socket_addr) (d.len.first ∷ [])
          (omega (arith, length-bytes_of d.socket_addr vd.addr_valid))
take-bytes_same b c written vb vc same (inr (at, first)) =
    take-bytes c written vc (omega arith)
    ∙ ap₂ (λ s f. take written (ThinAddr.bytes_of s ++ (f ∷ []))) same first
    ∙ sym (take-bytes b written vb (omega arith))

-- Whatever has been sent of a valid packet stays sent: after a `push` that is told how many bytes
-- are out, the bytes before that mark are the ones that went out.
pub push_keeps_sent :
    {b : PacketBuffer} (src : List ℕ) (written : ℕ)
    → IsPacket b
    → AreBytes src
    → take written (bytes (push b src written).0) ≡ take written (bytes b)
unfolding push
push_keeps_sent {b} src written v hs =
    let pushed = push-Pushed src written v hs in
    elim (Option-cases (max_len b written)) [
      | inl e ↦ rw (e, push) refl
      | inr (room, e) ↦
          take-bytes_same b (push b src written).0 written v pushed.valid pushed.same_addr
            (late room e)
    ]
  where
    late :
        (room : ℕ)
        → max_len b written ≡ some room
        → (written ≤ 18) ⊎ ((written ≡ 19) × ((push b src written).0.len.first ≡ b.len.first))
    late room e = elim (max_len-cases b written v e) [
      | inl early ↦ inl early
      | inr (at, fits) ↦
          let n = push_count-eq src room (omega (arith, max_len-le written v e)) in
          inr (at, rw (e, push) (first-append_to b src (push_count src room) v (omega arith)))
    ]
