-- ===== src/Wire.antt =====
-- What the two frame parsers of the page share: reading a byte queue by offset, and the decimal
-- field reader, `readInt` of web/app/rpc.ts and of web/app/stream-mux.ts.
use vinx.Prelude.{
  ℕ, suc, ◌+◌, ◌-◌, ◌*◌, ◌^◌, ◌≤◌, ◌<◌, ◌≡◌, refl, true, false, not, ◌||◌, List, [], ◌∷◌, ◌++◌,
  arith, ltb, leb, ◌==◌, if◌then◌else◌, length, get_or, take, drop, All, drop-append, length-drop,
  drop-length, ap₂, take-length, zero,
}
use vinx.Prelude.Decimal.{
  is_digit, number_of, decimal, decimal-digits, number_of-decimal, length-decimal,
}

-- `fifo.at(i)`; no read is out of range, and 0 is none of the bytes that are looked for.
abbrev pub at : List ℕ → ℕ → ℕ
at xs i = get_or xs i 0

-- `fifo.slice(from, to)`.
abbrev pub slice : List ℕ → ℕ → ℕ → List ℕ
slice xs from to = take (to - from) (drop from xs)

pub data Scan : Type 0 where
  done : ℕ → ℕ → Scan
  wait : Scan
  bad : Scan

-- The loop of `readInt`: what is left of the queue, the digits read so far and their value.
pub scan : ℕ → ℕ → List ℕ → ℕ → ℕ → Scan
unfolding is_digit
scan max_digits stop [] i value = if ltb max_digits i then bad else wait
scan max_digits stop (c ∷ cs) i value =
    let more = scan max_digits stop cs (i + 1) (value * 10 + (c - 0x30)) in
    if c == stop
    then (if i == 0 then bad else done value i)
    else if not (is_digit c) || leb max_digits i
    then bad
    else more

-- The answer of a field reader at `from`: the end of the field is a position in the queue.
abbrev shift : ℕ → Scan → Scan
shift from (done value i) = done value (from + i)
shift from wait = wait
shift from bad = bad

unfoldable pub read_int : List ℕ → ℕ → ℕ → ℕ → Scan
unfolding scan
read_int fifo from max_digits stop = shift from (scan max_digits stop (drop from fifo) 0 0)

-- What more bytes behind the queue may change: only an answer `wait`.
abbrev pub Settled : Scan → Scan → Type 0
Settled wait later = Unit {0}
Settled (done value i) later = later ≡ done value i
Settled bad later = later ≡ bad

scan-append :
    (max_digits stop : ℕ) (xs ys : List ℕ) (i value : ℕ)
    → i ≤ max_digits
    → Settled (scan max_digits stop xs i value) (scan max_digits stop (xs ++ ys) i value)
unfolding scan
scan-append m stop [] ys i v h = ground arith
scan-append m stop (c ∷ xs) ys i v h =
    ground (arith, scan-append m stop xs ys (i + 1) (v * 10 + (c - 0x30)))

Settled-shift : (from : ℕ) (r s : Scan) → Settled r s → Settled (shift from r) (shift from s)
Settled-shift from (done v i) s h = rw h
Settled-shift from wait s h = tt
Settled-shift from bad s h = rw h

pub read_int-append :
    (fifo ys : List ℕ) (from m stop : ℕ)
    → from ≤ length fifo
    → Settled (read_int fifo from m stop) (read_int (fifo ++ ys) from m stop)
unfolding read_int
read_int-append fifo ys from m stop h =
    rw (drop-append from fifo ys h)
      (Settled-shift from _ _ (scan-append m stop (drop from fifo) ys 0 0 (omega arith)))

-- A field ends inside the queue, behind its start.
scan-end :
    (m stop : ℕ) (xs : List ℕ) (i value : ℕ) {v e : ℕ}
    → scan m stop xs i value ≡ done v e
    → (i ≤ e) × (e < i + length xs) × (0 < e)
unfolding scan
scan-end m stop [] i value h = ground arith
scan-end m stop (c ∷ xs) i value {v} {e} h =
    ground (arith, scan-end m stop xs (i + 1) (value * 10 + (c - 0x30)) {v = v} {e = e})

pub read_int-end :
    (fifo : List ℕ) (from m stop : ℕ) {v e : ℕ}
    → read_int fifo from m stop ≡ done v e
    → (from < e) × (e < length fifo)
unfolding read_int
read_int-end fifo from m stop {v} {e} h = go (scan m stop (drop from fifo) 0 0) refl h
  where
    go :
        (r : Scan)
        → scan m stop (drop from fifo) 0 0 ≡ r
        → shift from r ≡ done v e
        → (from < e) × (e < length fifo)
    go (done v' i) p q =
        ground (arith, scan-end m stop (drop from fifo) 0 0 p, length-drop from fifo)
    go wait p q = cc
    go bad p q = cc

-- A field that is not ended yet has at most the digits that it may have.
scan_waits :
    (m stop : ℕ) (xs : List ℕ) (i value : ℕ) → scan m stop xs i value ≡ wait → i + length xs ≤ m
unfolding scan
scan_waits m stop [] i value h = ground arith
scan_waits m stop (c ∷ xs) i value h =
    ground (arith, scan_waits m stop xs (i + 1) (value * 10 + (c - 0x30)))

pub read_int_waits :
    (fifo : List ℕ) (from m stop : ℕ) → read_int fifo from m stop ≡ wait → length fifo ≤ from + m
unfolding read_int
read_int_waits fifo from m stop h = go (scan m stop (drop from fifo) 0 0) refl h
  where
    go :
        (r : Scan)
        → scan m stop (drop from fifo) 0 0 ≡ r
        → shift from r ≡ wait
        → length fifo ≤ from + m
    go (done v' i) p q = cc
    go wait p q = omega (arith, scan_waits m stop (drop from fifo) 0 0 p, length-drop from fifo)
    go bad p q = cc

scan_digits :
    (m stop : ℕ) (xs : List ℕ) (i value : ℕ) {v e : ℕ}
    → i ≤ m
    → scan m stop xs i value ≡ done v e
    → e ≤ m
unfolding scan
scan_digits m stop [] i value b h = ground arith
scan_digits m stop (c ∷ xs) i value {v} {e} b h =
    ground (arith, scan_digits m stop xs (i + 1) (value * 10 + (c - 0x30)) {v = v} {e = e})

pub read_int_digits :
    (fifo : List ℕ) (from m stop : ℕ) {v e : ℕ}
    → read_int fifo from m stop ≡ done v e
    → e ≤ from + m
unfolding read_int
read_int_digits fifo from m stop {v} {e} h = go (scan m stop (drop from fifo) 0 0) refl h
  where
    go : (r : Scan) → scan m stop (drop from fifo) 0 0 ≡ r → shift from r ≡ done v e → e ≤ from + m
    go (done v' i) p q =
        ground (arith, scan_digits m stop (drop from fifo) 0 0 {v = v'} {e = i} (omega arith) p)
    go wait p q = cc
    go bad p q = cc

-- A run of digits and the stop byte are read whole.
scan-number_of :
    (m stop : ℕ) (ds rest : List ℕ) (i value : ℕ)
    → All (λ c. is_digit c ≡ true) ds
    → is_digit stop ≡ false
    → i + length ds ≤ m
    → 0 < i + length ds
    → scan m stop (ds ++ stop ∷ rest) i value ≡ done (number_of value ds) (i + length ds)
unfolding scan number_of is_digit
scan-number_of m stop [] rest i value h s b p = ground arith
scan-number_of m stop (c ∷ ds) rest i value h s b p =
    ground (arith, scan-number_of m stop ds rest (i + 1) (value * 10 + (c - 0x30)))

-- A printed number is read back, whatever follows the stop byte.
pub read_int-decimal :
    (before rest : List ℕ) (from k n stop : ℕ)
    → from ≡ length before
    → n < 10 ^ suc k
    → is_digit stop ≡ false
    → read_int (before ++ (decimal n ++ stop ∷ rest)) from (suc k) stop
      ≡ done n (from + length (decimal n))
unfolding read_int
read_int-decimal before rest from k n stop e b s =
    rw (drop-length before (decimal n ++ stop ∷ rest) from e, scan_decimal)
      (ap₂ done (number_of-decimal n) same_end)
  where
    scan_decimal :
        scan (suc k) stop (decimal n ++ stop ∷ rest) 0 0
        ≡ done (number_of 0 (decimal n)) (0 + length (decimal n))
    scan_decimal =
        scan-number_of (suc k) stop (decimal n) rest 0 0 (decimal-digits n) s
          (omega (arith, length-decimal k n b)) (omega (arith, length-decimal k n b))

    same_end : from + (0 + length (decimal n)) ≡ from + length (decimal n)
    same_end = omega arith

pub slice_middle :
    (before middle rest : List ℕ) (from to : ℕ)
    → from ≡ length before
    → to ≡ from + length middle
    → slice (before ++ (middle ++ rest)) from to ≡ middle
slice_middle before middle rest from to e f =
    rw (drop-length before (middle ++ rest) from e)
      (take-length middle rest (to - from) (omega arith))

pub at_middle : (before rest : List ℕ) (b i : ℕ) → i ≡ length before → at (before ++ b ∷ rest) i ≡ b
at_middle [] rest b zero e = refl
at_middle [] rest b (suc i) e = absurd (omega arith)
at_middle (x ∷ before) rest b zero e = absurd (omega arith)
at_middle (x ∷ before) rest b (suc i) e = at_middle before rest b i (omega arith)
