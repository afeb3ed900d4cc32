-- ===== src/PacketBuffer/Push.antt =====
-- src/packet_buffer.rs: what `push` takes, where it puts it, and what it leaves alone.
use vt_muxer.Common.{
  ℕ, ◌+◌, ◌-◌, ◌*◌, ◌<◌, ◌⊎◌, ◌≤◌, ltb, ltb→lt, Bool-cases, min, ◌≡◌, ◌≢◌, refl, sym, ap, ◌∙◌, ◌↔◌,
  inl, inr, true, some, List, [], ◌∷◌, ◌++◌, arith, length, length-append, take, drop, length-take,
  length-drop, take-append_length, append_assoc, append-nil, Option-cases,
}
use vt_muxer.Common.Bytes.{AreBytes, AreBytes-append, AreBytes-take, AreBytes-drop}
use vt_muxer.Integers
use vt_muxer.Integers.RoundTrip.{get-lt, get-new, new-IsU16}
use vt_muxer.PacketBuffer.{
  PacketBuffer, IsPacket, packet_size, is_full, must_flush_for, max_len, copy_to, append_to,
  push_count, push,
}
use vt_muxer.PacketBuffer.Content.{payload}

module _ (array : List ℕ) (at : ℕ) (src : List ℕ) (fits : at + length src ≤ length array) where
  take-copy_to : take (at + length src) (copy_to array at src) ≡ take at array ++ src
  unfolding copy_to
  take-copy_to =
      ap (take (at + length src)) (sym (append_assoc (take at array) src _))
      ∙ take-append_length (at + length src) (take at array ++ src) (drop (at + length src) array)
          (omega (arith, length-append (take at array) src, length-take at array))

  length-copy_to : length (copy_to array at src) ≡ length array
  unfolding copy_to
  length-copy_to = omega (
    arith,
    length-append (take at array) (src ++ drop (at + length src) array),
    length-append src (drop (at + length src) array),
    length-take at array,
    length-drop (at + length src) array,
  )

copy_to-AreBytes :
    (array : List ℕ) (at : ℕ) (src : List ℕ)
    → AreBytes array
    → AreBytes src
    → AreBytes (copy_to array at src)
unfolding copy_to
copy_to-AreBytes array at src ha hs =
    AreBytes-append (take at array) (src ++ drop (at + length src) array)
      (AreBytes-take at array ha)
      (AreBytes-append src (drop (at + length src) array) hs
        (AreBytes-drop (at + length src) array ha))

-- The room that `push` finds is within the array.
pub max_len-le :
    {b : PacketBuffer} (written : ℕ) {room : ℕ}
    → IsPacket b
    → max_len b written ≡ some room
    → room + packet_size b ≤ 65535
unfolding max_len packet_size Integers.get
max_len-le {b} written v h = ground (arith, v.len_valid)

-- What `push` may do: nothing, or append the first `n` bytes of `src` to the payload, with the
-- array, the length and the address in order.
pub record Pushed (b : PacketBuffer) (src : List ℕ) (b' : PacketBuffer) (n : ℕ) : Type 0 where
  pub valid : IsPacket b'
  pub appended : payload b' ≡ payload b ++ take n src
  pub counted : packet_size b' ≡ packet_size b + n
  pub within : n ≤ length src
  pub same_addr : b'.socket_addr ≡ b.socket_addr

push_nothing : {b : PacketBuffer} (src : List ℕ) → IsPacket b → Pushed b src b 0
push_nothing {b} src v = record {
  valid = v;
  appended = sym (append-nil (payload b));
  counted = omega arith;
  within = omega arith;
  same_addr = refl;
}

-- The number of bytes that fit the room is the smaller one.
pub push_count-eq :
    (src : List ℕ) (room : ℕ) → room ≤ 65535 → push_count src room ≡ min room (length src)
unfolding push_count
push_count-eq src room h = ground arith

module _ {b : PacketBuffer} (src : List ℕ) (n : ℕ) (v : IsPacket b) (hs : AreBytes src)
    (within : n ≤ length src) (fits : n + packet_size b ≤ 65535) where
  length-append_to : packet_size (append_to b src n) ≡ n + packet_size b
  unfolding append_to packet_size
  length-append_to = get-new (n + Integers.get b.len) (omega arith)

  -- The copy stays inside the array.
  copy_fits : packet_size b + length (take n src) ≤ length b.array
  copy_fits = omega (arith, length-take n src, v.array_size)

  append_to-IsPacket : IsPacket (append_to b src n)
  unfolding append_to packet_size
  append_to-IsPacket = record {
    addr_valid = v.addr_valid;
    len_valid = new-IsU16 (n + Integers.get b.len);
    array_size = length-copy_to b.array (Integers.get b.len) (take n src) copy_fits ∙ v.array_size;
    array_bytes =
        copy_to-AreBytes b.array (Integers.get b.len) (take n src) v.array_bytes
          (AreBytes-take n src hs);
  }

  payload-append_to : payload (append_to b src n) ≡ payload b ++ take n src
  unfolding append_to packet_size
  payload-append_to =
      let total : Integers.get (Integers.new (n + Integers.get b.len))
          ≡ Integers.get b.len + length (take n src) =
        omega (arith, get-new (n + Integers.get b.len), length-take n src) in
      ap (λ k. take k (copy_to b.array (Integers.get b.len) (take n src))) total
      ∙ take-copy_to b.array (Integers.get b.len) (take n src) copy_fits

  append_to-Pushed : Pushed b src (append_to b src n) n
  append_to-Pushed = record {
    valid = append_to-IsPacket;
    appended = payload-append_to;
    counted = omega (arith, length-append_to);
    within = within;
    same_addr = unfold append_to in refl;
  }

-- For a valid packet and bytes `src`, `push` appends to the payload the first bytes of `src`, as
-- many as it returns, and no more than there are; the length field counts them, the address stays,
-- and the packet stays valid, so neither the sum of the lengths nor the copy goes out of range.
pub push-Pushed :
    {b : PacketBuffer} (src : List ℕ) (written : ℕ)
    → IsPacket b
    → AreBytes src
    → let (b', n) = push b src written in Pushed b src b' n
unfolding push
push-Pushed {b} src written v hs = elim (Option-cases (max_len b written)) [
  | inl e ↦ rw (e, push) (push_nothing src v)
  | inr (room, e) ↦
      let fits = max_len-le written v e in
      let small = push_count-eq src room (omega arith) in
      rw (e, push) (append_to-Pushed src (push_count src room) v hs (omega arith) (omega arith))
]

-- What `push` takes when `written` bytes of the packet are out, the first 18 of which are the address:
-- up to the largest payload, up to the largest payload with the same first byte of the length, or
-- nothing.
abbrev pub Takes : PacketBuffer → List ℕ → ℕ → ℕ → Type 0
Takes b src written n =
    (written < 19) × (n ≡ min (65535 - packet_size b) (length src))
    ⊎ ((written ≡ 19) × (n ≡ min (b.len.first * 256 + 255 - packet_size b) (length src))
        ⊎ (19 < written) × (n ≡ 0))

-- For a valid packet, `push` takes as many bytes of the slice as there are, or as there is room for
-- if that is less. With at most the address on the wire, the room is up to 65535 bytes of payload;
-- with the first byte of the length behind it, up to the largest length that begins with that byte;
-- with both, there is none.
pub push-Takes :
    {b : PacketBuffer} (src : List ℕ) (written : ℕ)
    → IsPacket b
    → Takes b src written (push b src written).1
unfolding push push_count max_len packet_size
push-Takes {b} src written v =
    let small = get-lt b.len v.len_valid in
    let first_byte = v.len_valid.first_byte in
    let second_byte = v.len_valid.second_byte in
    elim (Bool-cases (ltb written 19)) [
      | inl e ↦ let before = ltb→lt written 19 e in inl (before, ground arith)
      | inr e ↦ elim (Bool-cases (ltb 19 written)) [
        | inl f ↦ let behind = ltb→lt 19 written f in inr (inr (behind, ground arith))
        | inr f ↦
            let here : written ≡ 19 = ground arith in
            inr (inl (here, unfold Integers.get in ground arith))
      ]
    ]

-- `must_flush_for` answers true exactly if `push` would take nothing of a slice that is not empty.
pub must_flush_iff :
    {b : PacketBuffer} (src : List ℕ) (written : ℕ)
    → IsPacket b
    → src ≢ []
    → (must_flush_for b written ≡ true) ↔ ((push b src written).1 ≡ 0)
unfolding must_flush_for is_full packet_size push max_len push_count
must_flush_iff {b} [] written v some_bytes = absurd (some_bytes refl)
must_flush_iff {b} (x ∷ src) written v some_bytes =
    let small = get-lt b.len v.len_valid in
    let byte = v.len_valid.second_byte in (λ h. ground arith, λ h. ground arith)
