-- ===== src/Hostcall.antt =====
-- web/app/hostcall.ts: the page as its machine calls it. A method of the page reads and writes the
-- machine's files through `RefIo` and ends with a result or throws a ServeError. `S` is what `RefIo`
-- keeps.
pub mod Refs
pub mod Fetch
pub mod Reply
pub mod Reading
pub mod Staged
pub mod Delivery
pub mod Console
pub mod Sharing
pub mod Captures
pub mod Script
pub mod Answered
pub mod Devices
pub mod Guards
pub mod Confined
pub mod Calls
pub mod Shown
use vinx.Prelude.{ℕ, ◌*◌, min, max, Bool, true, false, Option, none, some, List, ltb, if◌then◌else◌}
use vinx.Prelude.Text.{codes}
use vinx.Rpc.Json.{Number, whole, minus, fraction, other}

abbrev pub max_js_output : ℕ
max_js_output = 48_000

abbrev pub max_fetch_bytes : ℕ
max_fetch_bytes = 2 * 1024 * 1024

abbrev pub tmp_prefix : List ℕ
tmp_prefix = codes "/data/.vinx/tmp/"

abbrev pub result_budget : ℕ
result_budget = 3200

-- `clampMs`; a fraction is told by its whole part.
abbrev pub clamp_whole : ℕ → ℕ
clamp_whole n = min 120_000 (max 1000 n)

unfoldable pub clamp_ms : ℕ → Option Number → ℕ
clamp_ms fallback none = fallback
clamp_ms fallback (some (whole n)) = if ltb 0 n then clamp_whole n else fallback
clamp_ms fallback (some (fraction n)) = clamp_whole n
clamp_ms fallback (some (minus n)) = fallback
clamp_ms fallback (some other) = fallback

-- The errors that the methods throw; the last is any that is no ServeError.
pub data Fault : Type 0 where
  invalid_params unavailable resource_invalid data_plane_unavailable resource_busy : Fault
  requires_foreground other_error : Fault

pub data Result (A : Type 0) : Type 0 where
  ok : A → Result A
  err : Fault → Result A

-- How the methods reach the machine's files. `none`: it throws.
pub record RefIo (S : Type 0) : Type 0 where
  pub read : S → List ℕ → Option (List ℕ)
  pub write : S → List ℕ → List ℕ → Option S

abbrev pub Serve : Type 0 → Type 0 → Type 0
Serve S A = S → Result A × S

module _ {S A : Type 0} where
  abbrev pub pure : A → Serve S A
  pure a s = (ok a, s)

  abbrev pub raise : Fault → Serve S A
  raise f s = (err f, s)

  abbrev pub or_raise : Option A → Fault → Serve S A
  or_raise none f = raise f
  or_raise (some a) f = pure a

infixl 5 ◌>>=◌
abbrev pub ◌>>=◌ : {S A B : Type 0} → Serve S A → (A → Serve S B) → Serve S B
◌>>=◌ m f s = let (r, s') = m s in elim r [ ok a ↦ f a s' | err e ↦ raise e s' ]
