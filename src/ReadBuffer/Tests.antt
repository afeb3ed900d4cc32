-- ===== src/ReadBuffer/Tests.antt =====
-- src/read/read_buffer.rs on small buffers.
use vt_muxer.Common.{ℕ, min, ◌≡◌, refl, sym, ap, List, [], ◌∷◌, length, some, Option, none, arith}
use vt_muxer.ReadBuffer.{ReadBuffer, IsBuffer, new, bytes, fill_buffer, read}
use vt_muxer.ReadBuffer.Fifo.{
  FillEnded, fill_buffer-FillEnded, Moved, read-Moved, NewAnswered, new-NewAnswered,
}
use vt_muxer.Samples.Stream.{list_buf, list_buf-IsReadBuf, giving, stream, giving-IsReader}
use vt_muxer.ReadBuffer.Steps.{Call, System, run, all_bytes, run-all_bytes}

-- Five cells, of which two to four are unread.
abbrev half_read : ReadBuffer
half_read = record {
  cells = 10 ∷ 11 ∷ 12 ∷ 13 ∷ 14 ∷ [];
  capacity = 5;
  pos = 2;
  filled = 4;
  initialized = 4;
}

half_read-IsBuffer : IsBuffer half_read
half_read-IsBuffer = record {
  allocated = refl;
  pos_in = omega arith;
  filled_in = omega arith;
  initialized_in = omega arith;
}

arriving : List ℕ
arriving = 20 ∷ 21 ∷ 22 ∷ []

fill_buffer-FillEnded_example :
    let (o, b', s') = fill_buffer (giving 2) half_read arriving in
    FillEnded (giving 2) stream half_read arriving o b' s'
fill_buffer-FillEnded_example =
    fill_buffer-FillEnded (giving 2) stream (giving-IsReader 2) half_read arriving
      half_read-IsBuffer

read-Moved_example :
    let (b', o') = read list_buf half_read (1 ∷ [], 9) in
    Moved list_buf half_read (1 ∷ [], 9) (min 9 (length (bytes half_read))) b' o'
read-Moved_example = read-Moved list_buf list_buf-IsReadBuf half_read (1 ∷ [], 9) half_read-IsBuffer

new-NewAnswered_example : NewAnswered 2 (some (0 ∷ 0 ∷ [])) (new 2 (some (0 ∷ 0 ∷ [])))
new-NewAnswered_example = new-NewAnswered 2 (some (0 ∷ 0 ∷ [])) (λ cells e. sym (ap size e))
  where
    size : Option (List ℕ) → ℕ
    size none = 0
    size (some xs) = length xs

-- The unread bytes move out, one more fill gives two of the new ones, and a read takes them.
abbrev start : System (List ℕ) (List ℕ × ℕ)
start = record { buffer = half_read; out = ([], 3); reader = arriving }

abbrev calls : List Call
calls = Call.fill ∷ Call.take_out ∷ Call.fill ∷ Call.take_out ∷ []

run-all_bytes_example :
    IsBuffer (run (giving 2) list_buf calls start).buffer
    × (all_bytes (giving 2) list_buf stream (run (giving 2) list_buf calls start)
        ≡ all_bytes (giving 2) list_buf stream start)
run-all_bytes_example =
    run-all_bytes (giving 2) list_buf stream (giving-IsReader 2) list_buf-IsReadBuf calls start
      half_read-IsBuffer
