-- ===== src/Rpc/Parser/Search.antt =====
-- The search for the next header, on a queue and with bytes behind it (web/app/rpc.ts, findHeader).
use vinx.Prelude.{
  ℕ, zero, suc, ◌+◌, ◌-◌, ◌≤◌, ◌<◌, min, ◌≡◌, refl, ap, ◌∙◌, true, false, List, [], ◌∷◌, ◌++◌,
  Option, none, some, inl, inr, arith, ltb, if◌then◌else◌, length, drop, length-append,
  get_or-append, length-drop, Bool-cases, ltb→le, lt→ltb, le→ltb,
}
use vinx.Rpc.Frame.{head_len}
use vinx.Rpc.Parser.{is_header, find_header, next_index}

-- The bytes that stay when no header is found.
abbrev pub tail_start : List ℕ → ℕ
tail_start xs = length xs - min (length xs) (head_len - 1)

abbrev pub shift_by : ℕ → Option ℕ → Option ℕ
shift_by n none = none
shift_by n (some i) = some (n + i)

is_header-append : (xs ys : List ℕ) → 4 ≤ length xs → is_header (xs ++ ys) ≡ is_header xs
unfolding is_header
is_header-append xs ys h = rw (
  get_or-append xs ys 0 0 (omega arith),
  get_or-append xs ys 1 0 (omega arith),
  get_or-append xs ys 2 0 (omega arith),
  get_or-append xs ys 3 0 (omega arith),
)

-- One step of the search, on a queue of at least four bytes.
pub find_header-cons :
    (x : ℕ) (xs : List ℕ)
    → 4 ≤ length (x ∷ xs)
    → find_header (x ∷ xs) ≡ (if is_header (x ∷ xs) then some 0 else next_index (find_header xs))
unfolding find_header
find_header-cons x xs h = rw (le→ltb (length (x ∷ xs)) 4 h)

find_header_short : (xs : List ℕ) → length xs < 4 → find_header xs ≡ none
unfolding find_header
find_header_short [] h = refl
find_header_short (x ∷ xs) h = rw (lt→ltb (length (x ∷ xs)) 4 h)

-- Where the search stops there are four bytes of a header.
pub find_header-some :
    (xs : List ℕ) (i : ℕ)
    → find_header xs ≡ some i
    → (i + 4 ≤ length xs) × (is_header (drop i xs) ≡ true)
unfolding find_header
find_header-some [] i h = cc
find_header-some (x ∷ xs) zero h = ground arith
find_header-some (x ∷ xs) (suc i) h = ground (arith, find_header-some xs i)

pub find_header-append :
    (xs ys : List ℕ) (i : ℕ) → find_header xs ≡ some i → find_header (xs ++ ys) ≡ some i
find_header-append [] ys i h = unfold find_header in cc
find_header-append (x ∷ xs) ys i h = ground (
  arith,
  find_header-some (x ∷ xs) i h,
  length-append (x ∷ xs) ys,
  find_header-cons x xs,
  find_header-cons x (xs ++ ys),
  is_header-append (x ∷ xs) ys,
  find_header-some xs (i - 1),
  find_header-append xs ys (i - 1),
)

-- At its own place a header is found at once.
pub find_header-drop :
    (xs ys : List ℕ) (i : ℕ) → find_header xs ≡ some i → find_header (drop i xs ++ ys) ≡ some 0
find_header-drop xs ys i h =
    go (drop i xs) (omega (arith, length-drop i xs, (find_header-some xs i h).0))
      (find_header-some xs i h).1
  where
    go : (zs : List ℕ) → 4 ≤ length zs → is_header zs ≡ true → find_header (zs ++ ys) ≡ some 0
    go [] n e = absurd (omega arith)
    go (z ∷ zs) n e = rw (
      find_header-cons z (zs ++ ys) (omega (arith, length-append (z ∷ zs) ys)),
      is_header-append (z ∷ zs) ys n,
      e,
    )

shift_by-zero : (o : Option ℕ) → o ≡ shift_by 0 o
shift_by-zero none = refl
shift_by-zero (some i) = let e : i ≡ 0 + i = omega arith in ap (λ k. some k) e

next_index-shift_by : (n : ℕ) (o : Option ℕ) → next_index (shift_by n o) ≡ shift_by (suc n) o
next_index-shift_by n none = refl
next_index-shift_by n (some i) = let e : suc (n + i) ≡ suc n + i = omega arith in ap (λ k. some k) e

absent :
    (x : ℕ) (xs : List ℕ)
    → 4 ≤ length (x ∷ xs)
    → find_header (x ∷ xs) ≡ none
    → (is_header (x ∷ xs) ≡ false) × (find_header xs ≡ none)
absent x xs four h = ground (arith, find_header-cons x xs four)

-- Without a header in the queue, the search in the longer queue may start at its last three bytes.
pub find_header-tail :
    (xs ys : List ℕ)
    → find_header xs ≡ none
    → find_header (xs ++ ys)
      ≡ shift_by (tail_start xs) (find_header (drop (tail_start xs) xs ++ ys))
find_header-tail [] ys h = shift_by-zero _
find_header-tail (x ∷ xs) ys h = elim (Bool-cases (ltb (length (x ∷ xs)) 4)) [
  | inl short ↦ let e : tail_start (x ∷ xs) ≡ 0 = ground arith in rw e (shift_by-zero _)
  | inr enough ↦
      let e : tail_start (x ∷ xs) ≡ suc (tail_start xs) = ground arith in
      let four : 4 ≤ length (x ∷ xs) = ltb→le (length (x ∷ xs)) 4 enough in
      let (here, later) = absent x xs four h in
      rw e (
        find_header-cons x (xs ++ ys) (omega (arith, length-append (x ∷ xs) ys))
        ∙ rw (is_header-append (x ∷ xs) ys four, here)
            (ap next_index (find_header-tail xs ys later) ∙ next_index-shift_by (tail_start xs) _))
]
