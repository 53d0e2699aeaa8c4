-- ===== src/Rpc/Fifo.antt =====
-- class ByteFifo of web/app/rpc.ts: the byte queue under the parser, a buffer with two offsets that
-- compacts or grows when it is full. Its capacity is the length of `buf`.
pub mod Refines
use vinx.Prelude.{
  ℕ, zero, suc, ◌+◌, ◌-◌, ◌*◌, ◌≤◌, ◌<◌, ◌≡◌, max, refl, sym, ap, ap₂, ◌∙◌, List, [], ◌∷◌, ◌++◌,
  inl, inr, arith, leb, if◌then◌else◌, length, take, drop, replicate, get_or, Bool-cases,
  length-append, length-take, length-drop, take-length, drop-append, append_assoc, length-replicate,
}

pub record Fifo : Type 0 where
  pub buf : List ℕ
  pub head : ℕ
  pub tail : ℕ

abbrev pub new_fifo : Fifo
new_fifo = record { buf = replicate 4096 0; head = 0; tail = 0 }

abbrev pub size : Fifo → ℕ
size f = f.tail - f.head

-- `buf.set(bytes, from)`, where the bytes fit.
abbrev pub set_bytes : List ℕ → ℕ → List ℕ → List ℕ
set_bytes buf from bytes = take from buf ++ (bytes ++ drop (from + length bytes) buf)

-- `buf.subarray(head, tail)`.
abbrev pub contents : Fifo → List ℕ
contents f = take (f.tail - f.head) (drop f.head f.buf)

-- Room for `n` more bytes: as it is, or moved to the front, or in a larger buffer.
unfoldable pub ensure : ℕ → Fifo → Fifo
ensure n f =
    if leb (f.tail + n) (length f.buf)
    then f
    else if leb (size f + n) (length f.buf)
    then record { buf = set_bytes f.buf 0 (contents f); head = 0; tail = size f }
    else record {
      buf = set_bytes (replicate (max (length f.buf * 2) (size f + n + 4096)) 0) 0 (contents f);
      head = 0;
      tail = size f;
    }

abbrev append_bytes : List ℕ → Fifo → Fifo
append_bytes bytes f = record f { buf = set_bytes f.buf f.tail bytes; tail = f.tail + length bytes }

unfoldable pub push_byte : ℕ → Fifo → Fifo
push_byte byte f = append_bytes (byte ∷ []) (ensure 1 f)

unfoldable pub push_bytes : List ℕ → Fifo → Fifo
push_bytes bytes f = append_bytes bytes (ensure (length bytes) f)

unfoldable pub drop_bytes : ℕ → Fifo → Fifo
drop_bytes n f =
    if leb f.tail (f.head + n)
    then record f { head = 0; tail = 0 }
    else record f { head = f.head + n }

abbrev pub byte_at : Fifo → ℕ → ℕ
byte_at f i = get_or f.buf (f.head + i) 0

-- The offsets are in order and within the buffer.
pub record IsFifo (f : Fifo) : Type 0 where
  pub ordered : f.head ≤ f.tail
  pub within : f.tail ≤ length f.buf
