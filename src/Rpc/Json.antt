-- ===== src/Rpc/Json.antt =====
-- The JSON values that the link builds and reads, as the language's own values.
pub use vinx.Prelude.Text.{codes}
use vinx.Prelude.{ℕ, Bool, true, false, Option, none, some, List, [], ◌∷◌, if◌then◌else◌, text_eq}

-- A whole number, the negative of one, a positive number by its whole part, any other number
-- (a negative fraction, an infinity).
pub data Number : Type 0 where
  whole : ℕ → Number
  minus : ℕ → Number
  fraction : ℕ → Number
  other : Number

mutual
  pub data Json : Type 0 where
    null : Json
    bool : Bool → Json
    num : Number → Json
    str : List ℕ → Json
    arr : Items → Json
    obj : Fields → Json

  pub data Items : Type 0 where
    nil : Items
    item : Json → Items → Items

  pub data Fields : Type 0 where
    end : Fields
    field : List ℕ → Json → Fields → Fields

unfoldable pub get_field : List ℕ → Fields → Option Json
get_field k end = none
get_field k (field j v fs) = if text_eq j k then some v else get_field k fs

-- `v.k` of a value that may have no such property.
unfoldable pub property : List ℕ → Json → Option Json
property k (obj fs) = get_field k fs
property k null = none
property k (bool b) = none
property k (num n) = none
property k (str s) = none
property k (arr xs) = none

-- `typeof v === 'string' ? v : null`.
abbrev pub as_string : Option Json → Option (List ℕ)
as_string (some (str s)) = some s
as_string _ = none

abbrev pub as_number : Option Json → Option Number
as_number (some (num n)) = some n
as_number _ = none

-- `'k' in v`.
abbrev pub is_there : Option Json → Bool
is_there none = false
is_there (some v) = true

abbrev pub strings : List (List ℕ) → Items
strings [] = nil
strings (s ∷ rest) = item (str s) (strings rest)
