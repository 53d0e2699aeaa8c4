-- ===== src/Rpc/Fifo/Refines.antt =====
-- ByteFifo (web/app/rpc.ts) against a list of bytes.
use vinx.Prelude.{
  ℕ, zero, suc, ◌+◌, ◌-◌, ◌*◌, ◌≤◌, ◌<◌, ◌≡◌, max, refl, sym, ap, ap₂, ◌∙◌, List, [], ◌∷◌, ◌++◌,
  inl, inr, arith, leb, length, take, drop, replicate, get_or, Bool-cases, length-append,
  length-take, length-drop, take-length, drop-append, append_assoc, length-replicate,
  take-append-drop, get_or-append, leb→le, get_or-drop, drop-drop, drop-all,
}
use vinx.Rpc.Fifo.{
  Fifo, new_fifo, size, set_bytes, contents, ensure, append_bytes, push_byte, push_bytes,
  drop_bytes, byte_at, IsFifo,
}

-- A buffer in order, whose contents are `xs`.
pub record Holds (f : Fifo) (xs : List ℕ) : Type 0 where
  pub is_fifo : IsFifo f
  pub same : contents f ≡ xs

length-set_bytes :
    (buf bytes : List ℕ) (from : ℕ)
    → from + length bytes ≤ length buf
    → length (set_bytes buf from bytes) ≡ length buf
length-set_bytes buf bytes from h = omega (
  arith,
  length-append (take from buf) (bytes ++ drop (from + length bytes) buf),
  length-append bytes (drop (from + length bytes) buf),
  length-take from buf,
  length-drop (from + length bytes) buf,
)

length-contents : (f : Fifo) → IsFifo f → length (contents f) ≡ f.tail - f.head
length-contents f ok = omega (
  arith,
  ok.ordered,
  ok.within,
  length-take (f.tail - f.head) (drop f.head f.buf),
  length-drop f.head f.buf,
)

drop-take : (m n : ℕ) (xs : List ℕ) → m ≤ n → drop m (take n xs) ≡ take (n - m) (drop m xs)
drop-take zero n xs h = let e : n ≡ n - 0 = omega arith in ap (λ k. take k xs) e
drop-take (suc m) zero xs h = absurd (omega arith)
drop-take (suc m) (suc n) [] h = nothing (suc n - suc m)
  where
    nothing : (k : ℕ) → ◌≡◌ {A = List ℕ} [] (take k [])
    nothing zero = refl
    nothing (suc k) = refl
drop-take (suc m) (suc n) (x ∷ xs) h =
    let e : n - m ≡ suc n - suc m = omega arith in
    drop-take m n xs (omega arith) ∙ ap (λ k. take k (drop m xs)) e

-- Bytes written behind the tail are bytes behind the contents.
append_bytes-Holds :
    (bytes : List ℕ) (f : Fifo) (xs : List ℕ)
    → Holds f xs
    → f.tail + length bytes ≤ length f.buf
    → Holds (append_bytes bytes f) (xs ++ bytes)
append_bytes-Holds bytes f xs h room = record {
  is_fifo = record {
    ordered = omega (arith, h.is_fifo.ordered);
    within = omega (arith, length-set_bytes f.buf bytes f.tail room);
  };
  same =
      rw
        (
          drop-append f.head (take f.tail f.buf) (bytes ++ rest)
              (omega (arith, length-take f.tail f.buf, h.is_fifo.ordered, h.is_fifo.within)),
          drop-take f.head f.tail f.buf h.is_fifo.ordered,
          h.same,
          sym (append_assoc xs bytes rest),
        )
        (take-length (xs ++ bytes) rest _ (
          omega (
            arith,
            length-append xs bytes,
            ap length h.same,
            length-contents f h.is_fifo,
            h.is_fifo.ordered,
          )));
}
  where
    rest : List ℕ
    rest = drop (f.tail + length bytes) f.buf

-- The contents moved to the front of a buffer that has room for them and `n` bytes.
moved-Holds :
    (buf : List ℕ) (n : ℕ) (f : Fifo) (xs : List ℕ)
    → Holds f xs
    → size f + n ≤ length buf
    → let r : Fifo = record { buf = set_bytes buf 0 (contents f); head = 0; tail = size f } in
      Holds r xs × (r.tail + n ≤ length r.buf)
moved-Holds buf n f xs h room =
    let size_same = length-contents f h.is_fifo in
    let kept = length-set_bytes buf (contents f) 0 (omega (arith, size_same)) in
    (
      record {
        is_fifo = record { ordered = omega arith; within = omega (arith, kept) };
        same =
            take-length (contents f) (drop (0 + length (contents f)) buf) (size f - 0)
              (omega (arith, size_same))
            ∙ h.same;
      },
      omega (arith, kept),
    )

-- `ensure` makes room and keeps the contents.
ensure-Holds :
    (n : ℕ) (f : Fifo) (xs : List ℕ)
    → Holds f xs
    → Holds (ensure n f) xs × ((ensure n f).tail + n ≤ length (ensure n f).buf)
unfolding ensure
ensure-Holds n f xs h = elim (Bool-cases (leb (f.tail + n) (length f.buf))) [
  | inl fits ↦ rw fits (h, leb→le _ _ fits)
  | inr full ↦ elim (Bool-cases (leb (size f + n) (length f.buf))) [
    | inl compacts ↦ rw (full, compacts) (moved-Holds f.buf n f xs h (leb→le _ _ compacts))
    | inr grows ↦
        rw (full, grows)
          (moved-Holds (replicate (max (length f.buf * 2) (size f + n + 4096)) 0) n f xs h (
            omega (arith, length-replicate {A = ℕ} (max (length f.buf * 2) (size f + n + 4096)) 0)))
  ]
]

push_bytes-Holds :
    (bytes : List ℕ) (f : Fifo) (xs : List ℕ)
    → Holds f xs
    → Holds (push_bytes bytes f) (xs ++ bytes)
unfolding push_bytes
push_bytes-Holds bytes f xs h =
    let (kept, room) = ensure-Holds (length bytes) f xs h in append_bytes-Holds bytes _ xs kept room

drop_bytes-Holds :
    (n : ℕ) (f : Fifo) (xs : List ℕ) → Holds f xs → Holds (drop_bytes n f) (drop n xs)
unfolding drop_bytes
drop_bytes-Holds n f xs h = elim (Bool-cases (leb f.tail (f.head + n))) [
  | inl emptied ↦ rw emptied (record {
    is_fifo = record { ordered = omega arith; within = omega arith };
    same = sym (
        drop-all n xs
          (omega (arith, ap length h.same, length-contents f h.is_fifo, leb→le _ _ emptied)));
  })
  | inr left ↦ rw left (record {
    is_fifo = record { ordered = ground arith; within = h.is_fifo.within };
    same =
        (let e : f.tail - (f.head + n) ≡ f.tail - f.head - n = omega arith in
          ap₂ take e (sym (drop-drop n f.head f.buf)))
        ∙ sym (drop-take n (f.tail - f.head) (drop f.head f.buf) (ground arith))
        ∙ ap (drop n) h.same;
  })
]

pub data FifoOp : Type 0 where
  pushes : ℕ → FifoOp
  pushes_all : List ℕ → FifoOp
  drops : ℕ → FifoOp

abbrev pub fifo_step : Fifo → FifoOp → Fifo
fifo_step f (pushes byte) = push_byte byte f
fifo_step f (pushes_all bytes) = push_bytes bytes f
fifo_step f (drops n) = drop_bytes n f

-- The same operations on a list.
abbrev pub queue_step : List ℕ → FifoOp → List ℕ
queue_step xs (pushes byte) = xs ++ byte ∷ []
queue_step xs (pushes_all bytes) = xs ++ bytes
queue_step xs (drops n) = drop n xs

abbrev pub fifo_run : Fifo → List FifoOp → Fifo
fifo_run f [] = f
fifo_run f (op ∷ ops) = fifo_run (fifo_step f op) ops

abbrev pub queue_run : List ℕ → List FifoOp → List ℕ
queue_run xs [] = xs
queue_run xs (op ∷ ops) = queue_run (queue_step xs op) ops

fifo_step-Holds :
    (op : FifoOp) (f : Fifo) (xs : List ℕ) → Holds f xs → Holds (fifo_step f op) (queue_step xs op)
unfolding push_byte push_bytes
fifo_step-Holds (pushes byte) f xs h = push_bytes-Holds (byte ∷ []) f xs h
fifo_step-Holds (pushes_all bytes) f xs h = push_bytes-Holds bytes f xs h
fifo_step-Holds (drops n) f xs h = drop_bytes-Holds n f xs h

fifo_run-Holds :
    (ops : List FifoOp) (f : Fifo) (xs : List ℕ)
    → Holds f xs
    → Holds (fifo_run f ops) (queue_run xs ops)
fifo_run-Holds [] f xs h = h
fifo_run-Holds (op ∷ ops) f xs h = fifo_run-Holds ops _ _ (fifo_step-Holds op f xs h)

-- What a fifo shows is the list: its length, and each byte in range.
pub record Shows (f : Fifo) (xs : List ℕ) : Type 0 where
  pub size_shown : size f ≡ length xs
  pub byte_shown : (i : ℕ) → i < length xs → byte_at f i ≡ get_or xs i 0

Holds-Shows : (f : Fifo) (xs : List ℕ) → Holds f xs → Shows f xs
Holds-Shows f xs h = record {
  size_shown = sym (length-contents f h.is_fifo) ∙ ap length h.same;
  byte_shown = λ i below.
      let inside : i < length (contents f) = omega (arith, ap length h.same) in
      sym (get_or-drop f.head i f.buf 0)
      ∙ ap (λ zs. get_or zs i 0) (sym (take-append-drop (f.tail - f.head) (drop f.head f.buf)))
      ∙ get_or-append (contents f) _ i 0 inside
      ∙ ap (λ zs. get_or zs i 0) h.same;
}

-- Whatever is pushed and dropped, in any order, a new ByteFifo holds the bytes that a list would,
-- in order, within its buffer, compacted and grown as it may be, and `length` and `at` show them.
pub fifo_run-Shows :
    (ops : List FifoOp)
    → Holds (fifo_run new_fifo ops) (queue_run [] ops)
      × Shows (fifo_run new_fifo ops) (queue_run [] ops)
fifo_run-Shows ops = (held, Holds-Shows _ _ held)
  where
    held : Holds (fifo_run new_fifo ops) (queue_run [] ops)
    held =
        fifo_run-Holds ops new_fifo []
          (record { is_fifo = record { ordered = omega arith; within = omega arith }; same = refl })
