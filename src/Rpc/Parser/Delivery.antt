-- ===== src/Rpc/Parser/Delivery.antt =====
-- Frames as the page writes them, with noise before them, in the parser (web/app/rpc.ts).
use vinx.Prelude.{
  ℕ, ◌+◌, ◌^◌, ◌≤◌, ◌<◌, ◌≡◌, refl, ap, ◌∙◌, List, [], ◌∷◌, ◌++◌, true, false, some, arith, length,
  all, length-append, drop-length, All, ◌==◌,
}
use vinx.Rpc.Frame.{Utf8, Frame, data_frame, ack, build_data_frame, build_ack_frame, byte_v}
use vinx.Rpc.Parser.{
  Parser, Stats, frame, again, turn, parse_at_head, is_header, find_header, next_index, on_outcome,
  skip_noise, push_all, is_hex, count_frame, drain,
}
use vinx.Rpc.Parser.Search.{find_header-cons}
use vinx.Rpc.Parser.Rounds.{turn-some, turn_short, extend}
use vinx.Rpc.Parser.Chunks.{IsSettled, push_all-drain, drain-again, drain-stop}
use vinx.Rpc.Parser.RoundTrip.{IsSendable, parse_at_head-build_data_frame}
use vinx.Rpc.Parser.AckTrip.{parse_at_head-build_ack_frame}

-- Bytes among which no header can begin.
abbrev pub IsNoise : List ℕ → Type 0
IsNoise = All (λ b. (b == byte_v) ≡ false)

find_header_noise :
    (noise xs : List ℕ)
    → IsNoise noise
    → 4 ≤ length xs
    → find_header xs ≡ some 0
    → find_header (noise ++ xs) ≡ some (length noise)
unfolding is_header
find_header_noise [] xs h four found = found
find_header_noise (b ∷ noise) xs h four found =
    find_header-cons b (noise ++ xs) (omega (arith, length-append noise xs))
    ∙ rw (not_v b (noise ++ xs) h.0) (ap next_index (find_header_noise noise xs h.1 four found))
  where
    not_v : (b : ℕ) (zs : List ℕ) → (b == byte_v) ≡ false → is_header (b ∷ zs) ≡ false
    not_v b zs e = rw (e, is_header)

module _ (utf8 : Utf8) where
  -- A frame at the head of the queue, behind noise, is what the next round delivers.
  turn_frame :
      (p : Parser) (noise xs rest : List ℕ) (f : Frame)
      → p.fifo ≡ noise ++ (xs ++ rest)
      → IsNoise noise
      → 4 ≤ length (xs ++ rest)
      → find_header (xs ++ rest) ≡ some 0
      → parse_at_head utf8 (xs ++ rest) ≡ frame f (length xs)
      → turn utf8 p
        ≡ again (f ∷ []) (record {
          fifo = rest;
          need = 4;
          stats =
              count_frame f (record (p.stats) { noise_bytes = p.stats.noise_bytes + length noise });
        })
  unfolding on_outcome skip_noise
  turn_frame p noise xs rest f e quiet four found parsed =
      turn-some utf8 p (length noise) (rw e (find_header_noise noise (xs ++ rest) quiet four found))
      ∙ rw (
        e,
        drop-length noise (xs ++ rest) (length noise) refl,
        parsed,
        drop-length xs rest (length xs) refl,
      )

-- The bytes of a frame as the page writes it.
unfoldable pub frame_bytes : Utf8 → Frame → List ℕ
frame_bytes utf8 (data_frame epoch seq json) = build_data_frame utf8 epoch seq json
frame_bytes utf8 (ack epoch seq) = build_ack_frame epoch seq

-- The frames that the header has room for.
abbrev pub Fits : Utf8 → Frame → Type 0
Fits utf8 (data_frame epoch seq json) = IsSendable utf8 epoch seq json
Fits utf8 (ack epoch seq) = (length epoch ≡ 16) × (all is_hex epoch ≡ true) × (seq < 10 ^ 10)

-- Frames with noise in front of each.
unfoldable pub wire : Utf8 → List (List ℕ × Frame) → List ℕ
wire utf8 [] = []
wire utf8 ((noise, f) ∷ rest) = noise ++ (frame_bytes utf8 f ++ wire utf8 rest)

abbrev pub frames_of : List (List ℕ × Frame) → List Frame
frames_of [] = []
frames_of ((noise, f) ∷ rest) = f ∷ frames_of rest

abbrev pub noise_of : List (List ℕ × Frame) → ℕ
noise_of [] = 0
noise_of ((noise, f) ∷ rest) = length noise + noise_of rest

abbrev pub AreSent : Utf8 → List (List ℕ × Frame) → Type 0
AreSent utf8 [] = Unit {0}
AreSent utf8 ((noise, f) ∷ rest) = IsNoise noise × Fits utf8 f × AreSent utf8 rest

module _ (utf8 : Utf8) where
  frame_found :
      (f : Frame) (rest : List ℕ)
      → (4 ≤ length (frame_bytes utf8 f ++ rest))
        × (find_header (frame_bytes utf8 f ++ rest) ≡ some 0)
  unfolding frame_bytes build_data_frame build_ack_frame find_header is_header
  frame_found (data_frame epoch seq json) rest = (omega arith, ground arith)
  frame_found (ack epoch seq) rest = (omega arith, ground arith)

  frame_parsed :
      (f : Frame) (rest : List ℕ)
      → Fits utf8 f
      → parse_at_head utf8 (frame_bytes utf8 f ++ rest) ≡ frame f (length (frame_bytes utf8 f))
  unfolding frame_bytes
  frame_parsed (data_frame epoch seq json) rest ok =
      parse_at_head-build_data_frame utf8 epoch seq json rest ok
  frame_parsed (ack epoch seq) rest (e, hex, fits) =
      parse_at_head-build_ack_frame utf8 epoch seq rest e hex fits

-- The frames, an empty queue, and the noise counted: what is left after a delivery.
pub record Delivered (items : List (List ℕ × Frame)) (st : Stats) (r : List Frame × Parser)
    : Type 0 where
  pub delivered : r.0 ≡ frames_of items
  pub emptied : r.1.fifo ≡ []
  pub noise_counted : r.1.stats.noise_bytes ≡ st.noise_bytes + noise_of items
  pub no_bad_frames : r.1.stats.bad_frames ≡ st.bad_frames

noise-count_frame : (f : Frame) (st : Stats) → (count_frame f st).noise_bytes ≡ st.noise_bytes
noise-count_frame (data_frame e s j) st = refl
noise-count_frame (ack e s) st = refl

bad-count_frame : (f : Frame) (st : Stats) → (count_frame f st).bad_frames ≡ st.bad_frames
bad-count_frame (data_frame e s j) st = refl
bad-count_frame (ack e s) st = refl

module _ (utf8 : Utf8) where
  drain-wire :
      (items : List (List ℕ × Frame)) (p : Parser)
      → p.fifo ≡ wire utf8 items
      → AreSent utf8 items
      → Delivered items p.stats (drain utf8 p)
  unfolding wire
  drain-wire [] p e sent =
      rw (drain-stop utf8 p _ (turn_short utf8 p (rw e (omega arith)))) (record {
        delivered = refl;
        emptied = e;
        noise_counted = omega arith;
        no_bad_frames = refl;
      })
  drain-wire ((noise, f) ∷ items) p e (quiet, fits, sent) =
      let found = frame_found utf8 f (wire utf8 items) in
      let step =
        turn_frame utf8 p noise (frame_bytes utf8 f) (wire utf8 items) f e quiet found.0 found.1
          (frame_parsed utf8 f (wire utf8 items) fits) in
      let q : Parser = record {
        fifo = wire utf8 items;
        need = 4;
        stats =
            count_frame f (record (p.stats) { noise_bytes = p.stats.noise_bytes + length noise });
      } in
      let rest : Delivered items q.stats (drain utf8 q) = drain-wire items q refl sent in
      rw (drain-again utf8 p q (f ∷ []) step) (record {
        delivered = ap (◌∷◌ f) rest.delivered;
        emptied = rest.emptied;
        noise_counted = omega (
          arith,
          rest.noise_counted,
          noise-count_frame f
              (record (p.stats) { noise_bytes = p.stats.noise_bytes + length noise }),
        );
        no_bad_frames = rest.no_bad_frames ∙ bad-count_frame f _;
      })

  -- A parser with an empty queue that is pushed frames as the page writes them, with noise that
  -- holds no 'V' before each, delivers exactly these frames in order, counts the noise, reports no
  -- bad frame, and is empty again.
  pub push_all-wire :
      (items : List (List ℕ × Frame)) (p : Parser)
      → IsSettled utf8 p
      → p.fifo ≡ []
      → AreSent utf8 items
      → Delivered items p.stats (push_all utf8 p (wire utf8 items))
  push_all-wire items p settled e sent =
      rw (push_all-drain utf8 p (wire utf8 items) settled)
        (drain-wire items (extend p (wire utf8 items)) (rw e refl) sent)
