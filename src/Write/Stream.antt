-- ===== src/Write/Stream.antt =====
-- src/write.rs: what a connection has put on the wire, as frames, and what it still holds.
use vt_muxer.Common.{
  ℕ, ◌<◌, ◌≤◌, ◌≡◌, sym, ap, ◌∙◌, List, [], ◌∷◌, ◌++◌, arith, length, take, append-nil,
  append_assoc, take_all,
}
use vt_muxer.Common.Bytes.{AreBytes, AreBytes-take}
use vt_muxer.Integers
use vt_muxer.Integers.RoundTrip.{get-new, new-get, new-IsU16}
use vt_muxer.ThinAddr.{SocketAddr}
use vt_muxer.Protocol
use vt_muxer.PacketBuffer
use vt_muxer.PacketBuffer.{PacketBuffer, IsPacket}
use vt_muxer.PacketBuffer.Content.{payload, length-payload, length-bytes, packet_size-le}
use vt_muxer.PacketBuffer.Push.{push-Pushed}
use vt_muxer.PacketBuffer.Frame.{bytes-eq, push_keeps_sent}

-- The frame of one chunk of payload, and the frames of several.
unfoldable pub frame : SocketAddr → List ℕ → List ℕ
frame a chunk =
    Protocol.header_bytes (record { socket = a; len = Integers.new (length chunk) }) ++ chunk

unfoldable pub frames : SocketAddr → List (List ℕ) → List ℕ
unfolding frame
frames a [] = []
frames a (p ∷ ps) = frame a p ++ frames a ps

unfoldable pub joined : List (List ℕ) → List ℕ
joined [] = []
joined (p ∷ ps) = p ++ joined ps

-- A chunk is what one packet carries: at least one byte, so that its frame does not read as the end
-- of the connection, and no more than the length field can say.
abbrev pub AreChunks : List (List ℕ) → Type 0
AreChunks [] = Unit {0}
AreChunks (p ∷ ps) = ((0 < length p) × (length p ≤ 65535) × AreBytes p) × AreChunks ps

AreChunks-append_one :
    (ps : List (List ℕ)) (p : List ℕ)
    → AreChunks ps
    → (0 < length p) × (length p ≤ 65535) × AreBytes p
    → AreChunks (ps ++ p ∷ [])
AreChunks-append_one [] p h v = (v, tt)
AreChunks-append_one (q ∷ ps) p h v = (h.0, AreChunks-append_one ps p h.1 v)

pub frames-append_one :
    (a : SocketAddr) (ps : List (List ℕ)) (p : List ℕ)
    → frames a (ps ++ p ∷ []) ≡ frames a ps ++ frame a p
unfolding frames
frames-append_one a [] p = append-nil (frame a p)
frames-append_one a (q ∷ ps) p =
    ap (◌++◌ (frame a q)) (frames-append_one a ps p)
    ∙ sym (append_assoc (frame a q) (frames a ps) (frame a p))

joined-append_one : (ps : List (List ℕ)) (p : List ℕ) → joined (ps ++ p ∷ []) ≡ joined ps ++ p
unfolding joined
joined-append_one [] p = append-nil p
joined-append_one (q ∷ ps) p =
    ap (◌++◌ q) (joined-append_one ps p) ∙ sym (append_assoc q (joined ps) p)

-- The bytes of a packet are the frame of its payload.
pub bytes-frame :
    {b : PacketBuffer} → IsPacket b → PacketBuffer.bytes b ≡ frame b.socket_addr (payload b)
unfolding frame PacketBuffer.packet_size
bytes-frame {b} v =
    let same = ap Integers.new (length-payload v) ∙ new-get b.len v.len_valid in
    bytes-eq b
    ∙ ap (λ n. Protocol.header_bytes (record { socket = b.socket_addr; len = n }) ++ payload b)
        (sym same)

-- After `base`, the connection of `a` has sent whole frames and then the first `n` bytes of the
-- packet `b`; what it has accepted is what the frames carry and then the payload of `b`.
pub record Streams (base accepted : List ℕ) (a : SocketAddr) (b : PacketBuffer) (n : ℕ)
    (out : List ℕ) : Type 0 where
  pub valid : IsPacket b
  pub addr : b.socket_addr ≡ a
  pub mark : n ≤ length (PacketBuffer.bytes b)
  pub chunks : List (List ℕ)
  pub chunks_valid : AreChunks chunks
  pub on_wire : out ≡ (base ++ frames a chunks) ++ take n (PacketBuffer.bytes b)
  pub carried : accepted ≡ joined chunks ++ payload b

module _ {base accepted : List ℕ} {a : SocketAddr} {b : PacketBuffer} {n : ℕ} {out : List ℕ}
    (s : Streams base accepted a b n out) where
  -- `push` accepts what it says it takes.
  pub push-Streams :
      (src : List ℕ)
      → AreBytes src
      → let (b', m) = PacketBuffer.push b src n in Streams base (accepted ++ take m src) a b' n out
  push-Streams src hs =
      let p = push-Pushed src n s.valid hs in
      record {
        valid = p.valid;
        addr = p.same_addr ∙ s.addr;
        mark = omega (arith, s.mark, length-bytes s.valid, length-bytes p.valid, p.counted);
        chunks = s.chunks;
        chunks_valid = s.chunks_valid;
        on_wire =
            s.on_wire
            ∙ ap (◌++◌ (base ++ frames a s.chunks)) (sym (push_keeps_sent src n s.valid hs));
        carried =
            ap (λ l. l ++ take (PacketBuffer.push b src n).1 src) s.carried
            ∙ append_assoc (joined s.chunks) (payload b) (take (PacketBuffer.push b src n).1 src)
            ∙ ap (◌++◌ (joined s.chunks)) (sym p.appended);
      }

  -- More of the packet is out.
  pub sent-Streams :
      (m : ℕ) (out' : List ℕ)
      → m ≤ length (PacketBuffer.bytes b)
      → out' ≡ (base ++ frames a s.chunks) ++ take m (PacketBuffer.bytes b)
      → Streams base accepted a b m out'
  sent-Streams m out' mark wire = record {
    valid = s.valid;
    addr = s.addr;
    mark = mark;
    chunks = s.chunks;
    chunks_valid = s.chunks_valid;
    on_wire = wire;
    carried = s.carried;
  }

  pub clear-IsPacket : IsPacket (PacketBuffer.clear b)
  unfolding PacketBuffer.clear
  clear-IsPacket = record {
    addr_valid = s.valid.addr_valid;
    len_valid = new-IsU16 0;
    array_size = s.valid.array_size;
    array_bytes = s.valid.array_bytes;
  }

  payload-clear : payload (PacketBuffer.clear b) ≡ []
  unfolding PacketBuffer.clear
  payload-clear = ap (λ k. take k b.array) (get-new 0 (omega arith))

  -- The packet is out: its payload is one more chunk.
  pub clear-Streams :
      (out' : List ℕ)
      → 0 < PacketBuffer.packet_size b
      → out'
        ≡ (base ++ frames a s.chunks) ++ take (length (PacketBuffer.bytes b)) (PacketBuffer.bytes b)
      → Streams base accepted a (PacketBuffer.clear b) 0 out'
  clear-Streams out' some_bytes wire = record {
    valid = clear-IsPacket;
    addr = unfold PacketBuffer.clear in s.addr;
    mark = omega arith;
    chunks = s.chunks ++ payload b ∷ [];
    chunks_valid = AreChunks-append_one s.chunks (payload b) s.chunks_valid (
      omega (arith, length-payload s.valid),
      omega (arith, length-payload s.valid, packet_size-le s.valid),
      AreBytes-take (Integers.get b.len) b.array s.valid.array_bytes,
    );
    on_wire =
        wire
        ∙ ap (◌++◌ (base ++ frames a s.chunks)) (
            take_all (length (PacketBuffer.bytes b)) (PacketBuffer.bytes b) (omega arith)
            ∙ bytes-frame s.valid
            ∙ ap (λ x. frame x (payload b)) s.addr)
        ∙ append_assoc base (frames a s.chunks) (frame a (payload b))
        ∙ ap (◌++◌ base) (sym (frames-append_one a s.chunks (payload b)))
        ∙ sym (append-nil (base ++ frames a (s.chunks ++ payload b ∷ [])));
    carried =
        s.carried
        ∙ sym (joined-append_one s.chunks (payload b))
        ∙ sym (append-nil (joined (s.chunks ++ payload b ∷ [])))
        ∙ ap (◌++◌ (joined (s.chunks ++ payload b ∷ []))) (sym payload-clear);
  }
