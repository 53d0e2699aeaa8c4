-- ===== src/Mux/Delivery.antt =====
-- Frames of the stream lane, written and read again (web/app/stream-mux.ts).
use vinx.Prelude.{
  ℕ, zero, suc, ◌+◌, ◌^◌, ◌≤◌, ◌<◌, ◌≡◌, refl, sym, ap, ◌∙◌, some, List, [], ◌∷◌, ◌++◌, false,
  arith, leb, length, drop, length-append, append_assoc, append-nil, le→ltb, drop-all,
}
use vinx.Prelude.Assoc.{nat_eq, lookup}
use vinx.Prelude.Decimal.{decimal, is_digit, length-decimal}
use vinx.Wire.{Scan, read_int, read_int-decimal, slice, slice_middle}
use vinx.Mux.{
  Channel, Mux, Event, delivered, build_frame, mux_frame_max, buffer_size, byte_lf, byte_sp,
}
use vinx.Mux.Receive.{
  found, is_mux_header, find_mux_header, read_payload, read_channel, read_frame, discard, hand_over,
  next, on_found, at_found, mux_turn, mux_drain_loop, mux_drain, feed1, feed_all, mux_on_bytes,
}

module _ (id : ℕ) (payload tail : List ℕ) where
  abbrev head : List ℕ
  head = b'S' ∷ b'B' ∷ b'1' ∷ byte_sp ∷ []

  abbrev to_length : List ℕ
  to_length = head ++ (decimal id ++ byte_sp ∷ [])

  abbrev to_payload : List ℕ
  to_payload = to_length ++ (decimal (length payload) ++ byte_lf ∷ [])

  abbrev payload_end : ℕ
  payload_end = 4 + length (decimal id) + 1 + length (decimal (length payload))

  at_channel :
      build_frame id payload ++ tail
      ≡ head ++ (decimal id ++ byte_sp ∷ (decimal (length payload) ++ byte_lf ∷ (payload ++ tail)))
  unfolding build_frame
  at_channel = simp append_assoc

  at_length :
      build_frame id payload ++ tail
      ≡ to_length ++ (decimal (length payload) ++ byte_lf ∷ (payload ++ tail))
  unfolding build_frame
  at_length = simp append_assoc

  at_payload : build_frame id payload ++ tail ≡ to_payload ++ (payload ++ tail)
  unfolding build_frame
  at_payload = simp append_assoc

  length-to_length : length to_length ≡ 4 + length (decimal id) + 1
  length-to_length = omega (arith, length-append (decimal id) (byte_sp ∷ []))

  length-to_payload :
      length to_payload ≡ 4 + length (decimal id) + 1 + length (decimal (length payload)) + 1
  length-to_payload = omega (
    arith,
    length-to_length,
    length-append to_length (decimal (length payload) ++ byte_lf ∷ []),
    length-append (decimal (length payload)) (byte_lf ∷ []),
  )

  length-build_frame : length (build_frame id payload) ≡ length to_payload + length payload
  length-build_frame = omega (
    arith,
    ap length at_payload,
    length-append (build_frame id payload) tail,
    length-append to_payload (payload ++ tail),
    length-append payload tail,
  )

  -- A frame of a channel of at most five digits, with a payload of at most 2048 bytes, is read back
  -- whole, whatever bytes follow it.
  pub read_frame-build_frame :
      id < 10 ^ 5
      → length payload ≤ mux_frame_max
      → read_frame (build_frame id payload ++ tail)
        ≡ found id payload (length (build_frame id payload))
  unfolding read_frame read_channel read_payload is_digit
  read_frame-build_frame digits fits =
      rw
        (
          channel_read,
          length_read,
          le→ltb mux_frame_max (length payload) fits,
          le→ltb (length (build_frame id payload ++ tail)) (payload_end + 1 + length payload) whole,
          payload_read,
        )
        (ap (found id payload) (omega (arith, length-build_frame, length-to_payload)))
    where
      channel_read :
          read_int (build_frame id payload ++ tail) 4 5 byte_sp
          ≡ Scan.done id (4 + length (decimal id))
      channel_read = rw at_channel (read_int-decimal head _ 4 4 id byte_sp refl digits refl)

      length_read :
          read_int (build_frame id payload ++ tail) (4 + length (decimal id) + 1) 5 byte_lf
          ≡ Scan.done (length payload) payload_end
      length_read = rw at_length (
          read_int-decimal to_length (payload ++ tail) _ 4 (length payload) byte_lf
            (omega (arith, length-to_length)) (omega (arith, fits)) refl)

      whole : payload_end + 1 + length payload ≤ length (build_frame id payload ++ tail)
      whole = omega (
        arith,
        length-append (build_frame id payload) tail,
        length-build_frame,
        length-to_payload,
      )

      payload_read :
          slice
            (build_frame id payload ++ tail)
            (payload_end + 1)
            (payload_end + 1 + length payload)
          ≡ payload
      payload_read =
          rw at_payload
            (slice_middle to_payload payload tail _ _ (omega (arith, length-to_payload)) refl)

feed_all-append :
    (bytes : List ℕ) (m : Mux)
    → length m.buf + length bytes ≤ buffer_size
    → feed_all bytes m ≡ record m { buf = m.buf ++ bytes }
unfolding feed_all feed1
feed_all-append [] m h = rw append-nil
feed_all-append (b ∷ bytes) m h = rw (lt→leb buffer_size (length m.buf) (omega (arith, h))) (
    feed_all-append bytes (record m { buf = m.buf ++ b ∷ [] })
      (omega (arith, h, length-append m.buf (b ∷ [])))
    ∙ ap (λ zs. record m { buf = zs }) (append_assoc m.buf (b ∷ []) bytes))
  where
    lt→leb : (x y : ℕ) → y < x → leb x y ≡ false
    lt→leb x y k = ground arith

drain_empty : (fuel : ℕ) (m : Mux) → m.buf ≡ [] → mux_drain_loop fuel m ≡ ([], m)
unfolding mux_drain_loop mux_turn
drain_empty zero m e = refl
drain_empty (suc fuel) m e = rw e

-- One payload handed to a consumer, and nothing left, lost or miscounted.
pub record HandsOver (h : ℕ) (payload : List ℕ) (m : Mux) (r : List Event × Mux) : Type 0 where
  pub handed : r.0 ≡ delivered h payload ∷ []
  pub buf_empty : r.1.buf ≡ []
  pub frames_counted : r.1.stats.frames_in ≡ m.stats.frames_in + 1
  pub no_noise : r.1.stats.noise_bytes ≡ m.stats.noise_bytes
  pub no_bad : r.1.stats.bad_frames ≡ m.stats.bad_frames
  pub kept : r.1.channels ≡ m.channels

module _ (id : ℕ) (payload : List ℕ) (ch : Channel) (m : Mux) where
  abbrev full : Mux
  full = record m { buf = build_frame id payload }

  abbrev emptied : Mux
  emptied = record m {
    buf = [];
    stats = record (m.stats) {
      noise_bytes = m.stats.noise_bytes + 0;
      frames_in = m.stats.frames_in + 1;
    };
  }

  header_there : (find_mux_header full.buf ≡ some 0) × (4 ≤ length full.buf)
  unfolding build_frame find_mux_header is_mux_header
  header_there = (ground arith, omega arith)

  turn_there :
      id < 10 ^ 5
      → length payload ≤ mux_frame_max
      → lookup id m.channels ≡ some ch
      → mux_turn full ≡ next (delivered ch.handler payload ∷ [], emptied)
  unfolding mux_turn at_found on_found discard hand_over
  turn_there digits fits open_there =
      let read : read_frame (build_frame id payload)
          ≡ found id payload (length (build_frame id payload)) =
        ap read_frame (sym (append-nil (build_frame id payload)))
        ∙ read_frame-build_frame id payload [] digits fits in
      let gone : drop (length (build_frame id payload)) (build_frame id payload) ≡ [] =
        drop-all (length (build_frame id payload)) (build_frame id payload) (omega arith) in
      rw (le→ltb (length full.buf) 4 header_there.1, header_there.0, read, open_there, gone)

  -- The bytes of a frame that come at once to an empty buffer are handed over whole, to the consumer
  -- of the open channel that they name, and nothing is left, lost or miscounted: for a channel of at
  -- most five digits and a payload of at most 2048 bytes.
  pub mux_on_bytes-build_frame :
      id < 10 ^ 5
      → length payload ≤ mux_frame_max
      → lookup id m.channels ≡ some ch
      → m.buf ≡ []
      → HandsOver ch.handler payload m (mux_on_bytes (build_frame id payload) m)
  unfolding mux_on_bytes mux_drain mux_drain_loop
  mux_on_bytes-build_frame digits fits open_there empty =
      let fed : feed_all (build_frame id payload) m ≡ full =
        feed_all-append (build_frame id payload) m (omega (arith, ap length empty, short))
        ∙ ap (λ zs. record m { buf = zs ++ build_frame id payload }) empty in
      rw
        (
          fed,
          turn_there digits fits open_there,
          mux_drain_loop,
          drain_empty (length (feed_all (build_frame id payload) m).buf) emptied refl,
        )
        (record {
          handed = refl;
          buf_empty = refl;
          frames_counted = refl;
          no_noise = omega arith;
          no_bad = refl;
          kept = refl;
        })
    where
      short : length (build_frame id payload) ≤ 2068
      short = omega (
        arith,
        length-build_frame id payload [],
        length-to_payload id payload [],
        length-decimal 4 id digits,
        length-decimal 4 (length payload) (omega (arith, fits)),
        fits,
      )
