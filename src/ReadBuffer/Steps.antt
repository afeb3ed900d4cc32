-- ===== src/ReadBuffer/Steps.antt =====
-- src/read/read_buffer.rs: the fills and reads of a connection, in any order.
use vt_muxer.Common.{
  subst, ℕ, min, ◌≡◌, refl, sym, ap, ap₂, ◌∙◌, List, [], ◌∷◌, ◌++◌, length, take, drop,
  append_assoc, take-append-drop, Option, none, some,
}
use vt_muxer.Common.Poll.{Poll, ready, pending, IoResult, ok, err}
use vt_muxer.ReadBuffer.{
  ReadBuffer, IsBuffer, bytes, Window, Filled, fill_buffer, ReadBuf, IsReadBuf, read,
}
use vt_muxer.ReadBuffer.Fifo.{IsReader, FillEnded, fill_buffer-FillEnded, read-Moved}

-- One call on the buffer.
pub data Call : Type 0 where
  fill take_out : Call

-- The buffer, what the caller has, and the reader.
pub record System (R : Type 0) (O : Type 0) : Type 0 where
  pub buffer : ReadBuffer
  pub out : O
  pub reader : R

module _ {R : Type 0} (poll : R → Window → Poll (IoResult Filled) × R) (t : ReadBuf) where
  unfoldable pub call : Call → System R t.Buf → System R t.Buf
  call Call.fill y =
      let (o, b', s') = fill_buffer poll y.buffer y.reader in
      record { buffer = b'; out = y.out; reader = s' }
  call Call.take_out y =
      let (b', o') = read t y.buffer y.out in record { buffer = b'; out = o'; reader = y.reader }

  unfoldable pub run : List Call → System R t.Buf → System R t.Buf
  run [] y = y
  run (c ∷ cs) y = run cs (call c y)

  module _ (stream : R → List ℕ) where
    -- All bytes, in the order in which the peer has sent them.
    unfoldable pub all_bytes : System R t.Buf → List ℕ
    unfolding bytes
    all_bytes y = t.contents y.out ++ (bytes y.buffer ++ stream y.reader)

    after_fill :
        (y : System R t.Buf) (o : Poll (IoResult (Option ℕ))) (b' : ReadBuffer) (s' : R)
        → IsBuffer y.buffer
        → FillEnded poll stream y.buffer y.reader o b' s'
        → IsBuffer b' × (bytes b' ++ stream s' ≡ bytes y.buffer ++ stream y.reader)
    after_fill y (ready (ok (some n))) b' s' v (got, size, gave, took, valid) = (
      valid,
      ap (λ xs. xs ++ stream s') took
          ∙ append_assoc (bytes y.buffer) got (stream s')
          ∙ ap (λ xs. bytes y.buffer ++ xs) (sym gave),
    )
    after_fill y (ready (ok none)) b' s' v (same, idle, full) =
        (subst IsBuffer (sym same) v, ap₂ (λ b s. bytes b ++ stream s) same idle)
    after_fill y (ready (err e)) b' s' v (same, idle) =
        (subst IsBuffer (sym same) v, ap₂ (λ b xs. bytes b ++ xs) same idle)
    after_fill y pending b' s' v (same, idle) =
        (subst IsBuffer (sym same) v, ap₂ (λ b xs. bytes b ++ xs) same idle)

    call-all_bytes :
        IsReader poll stream
        → IsReadBuf t
        → (c : Call) (y : System R t.Buf) → IsBuffer y.buffer
        → IsBuffer (call c y).buffer × (all_bytes (call c y) ≡ all_bytes y)
    unfolding call all_bytes
    call-all_bytes honest laws Call.fill y v =
        let (o, b', s') = fill_buffer poll y.buffer y.reader in
        let (valid, same) =
          after_fill y o b' s' v (fill_buffer-FillEnded poll stream honest y.buffer y.reader v) in
        (valid, ap (λ xs. t.contents y.out ++ xs) same)
    call-all_bytes honest laws Call.take_out y v =
        let moved = read-Moved t laws y.buffer y.out v in
        let n = min (t.remaining y.out) (length (bytes y.buffer)) in
        (
          moved.valid,
          ap₂ (λ xs ys. xs ++ (ys ++ stream y.reader)) moved.delivered moved.kept
              ∙ append_assoc (t.contents y.out) (take n (bytes y.buffer)) _
              ∙ ap (λ xs. t.contents y.out ++ xs)
                  (sym (
                      append_assoc (take n (bytes y.buffer)) (drop n (bytes y.buffer))
                        (stream y.reader))
                    ∙ ap (λ xs. xs ++ stream y.reader) (take-append-drop n (bytes y.buffer))),
        )

    -- Any sequence of fills and reads of a valid buffer, over a reader and a `ReadBuf` that keep
    -- their contracts, keeps the buffer valid and loses, repeats and reorders no byte: what the
    -- caller has, then what is unread, then what the reader has yet to give, is always the same.
    pub run-all_bytes :
        IsReader poll stream
        → IsReadBuf t
        → (cs : List Call) (y : System R t.Buf) → IsBuffer y.buffer
        → IsBuffer (run cs y).buffer × (all_bytes (run cs y) ≡ all_bytes y)
    unfolding run
    run-all_bytes honest laws [] y v = (v, refl)
    run-all_bytes honest laws (c ∷ cs) y v =
        let (valid, same) = call-all_bytes honest laws c y v in
        let (valid', same') = run-all_bytes honest laws cs (call c y) valid in
        (valid', same' ∙ same)
