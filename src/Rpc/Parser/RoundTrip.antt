-- ===== src/Rpc/Parser/RoundTrip.antt =====
-- A data frame that the page wrote, read again by `parseAtHead` (web/app/rpc.ts).
use vinx.Prelude.{
  ℕ, ◌+◌, ◌-◌, ◌^◌, ◌≤◌, ◌<◌, ◌≡◌, refl, ap, subst, ◌∙◌, List, [], ◌∷◌, ◌++◌, true, arith, length,
  all, length-append, append_assoc, le→ltb,
}
use vinx.Prelude.Decimal.{decimal, is_digit}
use vinx.Wire.{at, slice, Scan, read_int, read_int-decimal, slice_middle, at_middle}
use vinx.Rpc.Frame.{
  Utf8, is_text, data_frame, build_data_frame, data_head, byte_sp, byte_lf, hard_frame_limit,
  max_seq_digits, max_len_digits,
}
use vinx.Rpc.Parser.{frame, parse_at_head, parse_seq, parse_length, parse_payload, is_hex}

-- What the link hands to `buildDataFrame`: 16 hexadecimal digits, a sequence number and a payload
-- length that the header has room for, and a payload that is text.
pub record IsSendable (utf8 : Utf8) (epoch : List ℕ) (seq : ℕ) (json : List ℕ) : Type 0 where
  pub epoch_length : length epoch ≡ 16
  pub epoch_hex : all is_hex epoch ≡ true
  pub seq_fits : seq < 10 ^ 10
  pub is_text : is_text json ≡ true
  pub payload_fits : length (utf8.encode json) ≤ hard_frame_limit

module _ (utf8 : Utf8) (epoch : List ℕ) (seq : ℕ) (json rest : List ℕ)
    (ok : IsSendable utf8 epoch seq json) where
  payload : List ℕ
  payload = utf8.encode json

  -- The frame up to its sequence number, its length and its payload.
  abbrev head_seq : List ℕ
  head_seq = data_head ++ (epoch ++ byte_sp ∷ [])

  abbrev head_len_at : List ℕ
  head_len_at = head_seq ++ (decimal seq ++ byte_sp ∷ [])

  abbrev head_payload : List ℕ
  head_payload = head_len_at ++ (decimal (length payload) ++ byte_sp ∷ [])

  whole : build_data_frame utf8 epoch seq json ++ rest ≡ head_payload ++ (payload ++ byte_lf ∷ rest)
  unfolding build_data_frame payload
  whole = simp append_assoc

  bytes : List ℕ
  bytes = head_payload ++ (payload ++ byte_lf ∷ rest)

  tail_len : List ℕ
  tail_len = decimal (length payload) ++ byte_sp ∷ (payload ++ byte_lf ∷ rest)

  bytes_len : bytes ≡ head_len_at ++ tail_len
  unfolding bytes tail_len
  bytes_len = simp append_assoc

  bytes_seq : bytes ≡ head_seq ++ (decimal seq ++ byte_sp ∷ tail_len)
  unfolding bytes tail_len
  bytes_seq = simp append_assoc

  bytes_space : bytes ≡ (data_head ++ epoch) ++ byte_sp ∷ (decimal seq ++ byte_sp ∷ tail_len)
  unfolding bytes tail_len
  bytes_space = simp append_assoc

  bytes_epoch : bytes ≡ data_head ++ (epoch ++ byte_sp ∷ (decimal seq ++ byte_sp ∷ tail_len))
  unfolding bytes tail_len
  bytes_epoch = simp append_assoc

  length-head_seq : length head_seq ≡ 21
  length-head_seq = omega (arith, length-append epoch (byte_sp ∷ []), ok.epoch_length)

  length-head_len_at : length head_len_at ≡ 22 + length (decimal seq)
  length-head_len_at = omega (
    arith,
    length-append head_seq (decimal seq ++ byte_sp ∷ []),
    length-append (decimal seq) (byte_sp ∷ []),
    length-head_seq,
  )

  length-head_payload :
      length head_payload ≡ 23 + length (decimal seq) + length (decimal (length payload))
  length-head_payload = omega (
    arith,
    length-append head_len_at (decimal (length payload) ++ byte_sp ∷ []),
    length-append (decimal (length payload)) (byte_sp ∷ []),
    length-head_len_at,
  )

  frame_size : ℕ
  frame_size = length head_payload + length payload + 1

  length-bytes : length bytes ≡ frame_size + length rest
  unfolding bytes frame_size
  length-bytes = omega (
    arith,
    length-append head_payload (payload ++ byte_lf ∷ rest),
    length-append payload (byte_lf ∷ rest),
  )

  payload_lem :
      (payload_at : ℕ)
      → payload_at ≡ length head_payload
      → parse_payload utf8 bytes epoch seq payload_at (length payload)
        ≡ frame (data_frame epoch seq json) (payload_at + length payload + 1)
  unfolding parse_payload bytes payload
  payload_lem n e = rw (
    le→ltb (length (head_payload ++ (payload ++ byte_lf ∷ rest))) (n + length payload + 1)
        (unfold bytes frame_size in omega (arith, length-bytes, e)),
    lf_there,
    slice_middle head_payload payload (byte_lf ∷ rest) n (n + length payload) e refl,
    utf8.decode-encode json ok.is_text,
  )
    where
      lf_there :
          at (head_payload ++ (payload ++ byte_lf ∷ rest)) (n + length payload + 1 - 1) ≡ byte_lf
      lf_there =
          subst (λ zs. at zs (n + length payload + 1 - 1) ≡ byte_lf)
            (append_assoc head_payload payload (byte_lf ∷ rest))
            (at_middle (head_payload ++ payload) rest byte_lf _
              (omega (arith, length-append head_payload payload, e)))

  length_lem :
      (from : ℕ)
      → from ≡ length head_len_at
      → parse_length utf8 bytes epoch seq (read_int bytes from max_len_digits byte_sp)
        ≡ frame (data_frame epoch seq json) frame_size
  unfolding parse_length is_digit
  length_lem from e =
      rw (read_length, le→ltb hard_frame_limit (length payload) (unfold payload in ok.payload_fits))
        (payload_lem (from + length (decimal (length payload)) + 1)
            (omega (arith, length-head_payload, length-head_len_at, e))
          ∙ ap (frame (data_frame epoch seq json)) same_end)
    where
      read_length :
          read_int bytes from max_len_digits byte_sp
          ≡ Scan.done (length payload) (from + length (decimal (length payload)))
      read_length = rw bytes_len (
          unfold tail_len in
          read_int-decimal head_len_at (payload ++ byte_lf ∷ rest) from 7 (length payload) byte_sp e
            (unfold payload in omega (arith, ok.payload_fits)) refl)

      same_end : from + length (decimal (length payload)) + 1 + length payload + 1 ≡ frame_size
      same_end = unfold frame_size in omega (arith, length-head_payload, length-head_len_at, e)

  seq_lem :
      parse_seq utf8 bytes epoch true (read_int bytes 21 max_seq_digits byte_sp)
      ≡ frame (data_frame epoch seq json) frame_size
  unfolding parse_seq is_digit
  seq_lem =
      rw read_seq (length_lem (21 + length (decimal seq) + 1) (omega (arith, length-head_len_at)))
    where
      read_seq :
          read_int bytes 21 max_seq_digits byte_sp ≡ Scan.done seq (21 + length (decimal seq))
      read_seq = rw bytes_seq (
          read_int-decimal head_seq tail_len 21 9 seq byte_sp (omega (arith, length-head_seq))
            ok.seq_fits refl)

  epoch_there : slice bytes 4 20 ≡ epoch
  epoch_there =
      rw bytes_epoch (slice_middle data_head epoch _ 4 20 refl (omega (arith, ok.epoch_length)))

  space_there : at bytes 20 ≡ byte_sp
  space_there =
      rw bytes_space (at_middle (data_head ++ epoch) _ byte_sp 20 (omega (arith, ok.epoch_length)))

  one_there : at bytes 2 ≡ 0x31
  unfolding bytes
  one_there = refl

  parse_bytes : parse_at_head utf8 bytes ≡ frame (data_frame epoch seq json) frame_size
  unfolding parse_at_head
  parse_bytes =
      rw
        (
          le→ltb (length bytes) 21 (omega (arith, length-bytes, enough)),
          epoch_there,
          space_there,
          one_there,
          ok.epoch_hex,
        )
        seq_lem
    where
      enough : 21 ≤ frame_size
      enough = unfold frame_size in omega (arith, length-head_payload)

  same_bytes : build_data_frame utf8 epoch seq json ++ rest ≡ bytes
  unfolding bytes
  same_bytes = whole

  length-frame : length (build_data_frame utf8 epoch seq json) ≡ frame_size
  length-frame = omega (
    arith,
    ap length same_bytes,
    length-bytes,
    length-append (build_data_frame utf8 epoch seq json) rest,
  )

  -- A frame that `buildDataFrame` made is parsed back whole, whatever bytes follow it.
  pub parse_at_head-build_data_frame :
      parse_at_head utf8 (build_data_frame utf8 epoch seq json ++ rest)
      ≡ frame (data_frame epoch seq json) (length (build_data_frame utf8 epoch seq json))
  parse_at_head-build_data_frame = rw (same_bytes, length-frame) parse_bytes
