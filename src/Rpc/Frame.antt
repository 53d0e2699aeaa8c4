-- ===== src/Rpc/Frame.antt =====
-- The wire constants, the two kinds of frame and their bytes (web/app/rpc.ts, L1).
-- A string is the list of its UTF-16 code units; `Utf8` is the platform's TextEncoder and fatal
-- TextDecoder, of which the code relies on one thing: a text that was encoded decodes to itself. A
-- text has no surrogate by itself, which would be encoded as U+FFFD, and does not begin with a byte
-- order mark, which the decoder drops; what `JSON.stringify` gives is always one.
use vinx.Prelude.{
  ℕ, ◌*◌, ◌≡◌, Bool, true, false, not, ◌&&◌, leb, ◌==◌, Option, some, List, [], ◌∷◌, ◌++◌, length,
}
use vinx.Prelude.Decimal.{decimal}

abbrev is_high : ℕ → Bool
is_high c = leb 0xd800 c && leb c 0xdbff

abbrev is_low : ℕ → Bool
is_low c = leb 0xdc00 c && leb c 0xdfff

-- Every high surrogate stands before a low one, and every low one behind a high one.
abbrev is_paired : Bool → List ℕ → Bool
is_paired after_high [] = not after_high
is_paired true (c ∷ cs) = is_low c && is_paired false cs
is_paired false (c ∷ cs) = not (is_low c) && is_paired (is_high c) cs

abbrev has_mark : List ℕ → Bool
has_mark [] = false
has_mark (c ∷ cs) = c == 0xfeff

abbrev pub is_text : List ℕ → Bool
is_text text = not (has_mark text) && is_paired false text

pub record Utf8 : Type 0 where
  pub encode : List ℕ → List ℕ
  pub decode : List ℕ → Option (List ℕ)
  pub decode-encode : (text : List ℕ) → is_text text ≡ true → decode (encode text) ≡ some text

abbrev pub hard_frame_limit : ℕ
hard_frame_limit = 64 * 1024

abbrev pub head_len : ℕ
head_len = 4

abbrev pub epoch_len : ℕ
epoch_len = 16

abbrev pub max_seq_digits : ℕ
max_seq_digits = 10

abbrev pub max_len_digits : ℕ
max_len_digits = 8

abbrev pub byte_v : ℕ
byte_v = 0x56

abbrev pub byte_lf : ℕ
byte_lf = 0x0a

abbrev pub byte_sp : ℕ
byte_sp = 0x20

pub data Frame : Type 0 where
  data_frame : List ℕ → ℕ → List ℕ → Frame
  ack : List ℕ → ℕ → Frame

-- "VX1 " and "VXA ".
abbrev pub data_head : List ℕ
data_head = byte_v ∷ b'X' ∷ b'1' ∷ byte_sp ∷ []

abbrev pub ack_head : List ℕ
ack_head = byte_v ∷ b'X' ∷ b'A' ∷ byte_sp ∷ []

-- The header fields of a data frame up to its payload, behind "VX1 ".
unfoldable pub build_data_frame : Utf8 → List ℕ → ℕ → List ℕ → List ℕ
build_data_frame utf8 epoch seq json =
    let payload = utf8.encode json in
    data_head
    ++ (epoch
        ++ (byte_sp
            ∷ (decimal seq
                ++ (byte_sp
                    ∷ (decimal (length payload) ++ (byte_sp ∷ (payload ++ byte_lf ∷ [])))))))

-- The epoch is ASCII, so its bytes are its code units.
unfoldable pub build_ack_frame : List ℕ → ℕ → List ℕ
build_ack_frame epoch seq = ack_head ++ (epoch ++ (byte_sp ∷ (decimal seq ++ byte_lf ∷ [])))
