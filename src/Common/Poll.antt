-- ===== src/Common/Poll.antt =====
-- `std::task::Poll` and `std::io::Result`, with the error kinds that the program makes or tells
-- apart.
use Prim.Native.Nat.{ℕ}

pub data Poll {ℓ} (A : Type ℓ) : Type ℓ where
  ready : A → Poll A
  pending : Poll A

-- `std::io::ErrorKind`; `os` stands for every kind that only the operating system produces.
pub data ErrorKind : Type 0 where
  addr_in_use broken_pipe out_of_memory unexpected_eof write_zero other : ErrorKind
  os : ℕ → ErrorKind

pub data IoResult {ℓ} (A : Type ℓ) : Type ℓ where
  ok : A → IoResult A
  err : ErrorKind → IoResult A
