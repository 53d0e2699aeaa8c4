-- ===== src/Rpc/Parser/AckTrip.antt =====
-- An ack frame that the page wrote, read again by `parseAtHead` (web/app/rpc.ts).
use vinx.Prelude.{
  ℕ, ◌+◌, ◌^◌, ◌<◌, ◌≡◌, refl, ap, List, [], ◌∷◌, ◌++◌, true, arith, length, all, length-append,
  append_assoc, le→ltb,
}
use vinx.Prelude.Decimal.{decimal, is_digit}
use vinx.Wire.{at, slice, Scan, read_int, read_int-decimal}
use vinx.Rpc.Frame.{Utf8, ack, build_ack_frame, ack_head, byte_sp, byte_lf, max_seq_digits}
use vinx.Rpc.Parser.{frame, parse_at_head, parse_seq, is_hex}
use vinx.Wire.{slice_middle, at_middle}

module _ (utf8 : Utf8) (epoch : List ℕ) (seq : ℕ) (rest : List ℕ) where
  ack_seq :
      build_ack_frame epoch seq ++ rest
      ≡ (ack_head ++ (epoch ++ byte_sp ∷ [])) ++ (decimal seq ++ byte_lf ∷ rest)
  unfolding build_ack_frame
  ack_seq = simp append_assoc

  ack_space :
      build_ack_frame epoch seq ++ rest
      ≡ (ack_head ++ epoch) ++ byte_sp ∷ (decimal seq ++ byte_lf ∷ rest)
  unfolding build_ack_frame
  ack_space = simp append_assoc

  ack_epoch :
      build_ack_frame epoch seq ++ rest
      ≡ ack_head ++ (epoch ++ byte_sp ∷ (decimal seq ++ byte_lf ∷ rest))
  unfolding build_ack_frame
  ack_epoch = simp append_assoc

  ack_kind : at (build_ack_frame epoch seq ++ rest) 2 ≡ b'A'
  unfolding build_ack_frame
  ack_kind = refl

  length-ack : length epoch ≡ 16 → length (build_ack_frame epoch seq) ≡ 22 + length (decimal seq)
  unfolding build_ack_frame
  length-ack e = omega (
    arith,
    length-append epoch (byte_sp ∷ (decimal seq ++ byte_lf ∷ [])),
    length-append (decimal seq) (byte_lf ∷ []),
  )

  -- A frame that `buildAckFrame` made for 16 hexadecimal digits is parsed back whole too.
  pub parse_at_head-build_ack_frame :
      length epoch ≡ 16
      → all is_hex epoch ≡ true
      → seq < 10 ^ 10
      → parse_at_head utf8 (build_ack_frame epoch seq ++ rest)
        ≡ frame (ack epoch seq) (length (build_ack_frame epoch seq))
  unfolding parse_at_head parse_seq is_digit
  parse_at_head-build_ack_frame e hex fits =
      rw
        (
          le→ltb (length (build_ack_frame epoch seq ++ rest)) 21
              (omega (arith, length-ack e, length-append (build_ack_frame epoch seq) rest)),
          epoch_at,
          space_at,
          ack_kind,
          hex,
          read_seq,
        )
        (ap (frame (ack epoch seq)) same_end)
    where
      epoch_at : slice (build_ack_frame epoch seq ++ rest) 4 20 ≡ epoch
      epoch_at = rw ack_epoch (slice_middle ack_head epoch _ 4 20 refl (omega (arith, e)))

      space_at : at (build_ack_frame epoch seq ++ rest) 20 ≡ byte_sp
      space_at = rw ack_space (at_middle (ack_head ++ epoch) _ byte_sp 20 (omega (arith, e)))

      read_seq :
          read_int (build_ack_frame epoch seq ++ rest) 21 max_seq_digits byte_lf
          ≡ Scan.done seq (21 + length (decimal seq))
      read_seq = rw ack_seq (
          read_int-decimal (ack_head ++ (epoch ++ byte_sp ∷ [])) rest 21 9 seq byte_lf
            (omega (arith, length-append epoch (byte_sp ∷ []), e)) fits refl)

      same_end : 21 + length (decimal seq) + 1 ≡ length (build_ack_frame epoch seq)
      same_end = omega (arith, length-ack e)
