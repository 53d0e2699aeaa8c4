-- ===== src/Hostcall/Script.antt =====
-- runJs and `debug.js` of web/app/hostcall.ts. What a script does until it ends is outside: it ends
-- with an outcome, and what it logged is what its sink has then. `number` is what `Number` makes of a
-- value, and `decode` the decoder that does not throw.
use vinx.Prelude.{
  ℕ, ◌+◌, ◌/◌, Bool, true, false, Option, none, some, List, [], ◌∷◌, ◌++◌, ltb, leb, if◌then◌else◌,
  length, take,
}
use vinx.Prelude.Decimal.{decimal}
use vinx.Prelude.Text.{codes, trim, is_empty}
use vinx.Prelude.Assoc.{nat_eq, lookup}
use vinx.Rpc.Json.{Json, Number, property, as_string}
use vinx.Rpc.Link.State.{inline_max_size}
use vinx.Hostcall.{max_js_output, clamp_ms, invalid_params, RefIo, Serve, pure, raise, ◌>>=◌}
use vinx.Hostcall.Refs.{or_nothing, safe_id, read_ref, write_ref}
use vinx.Hostcall.Console.{Page, close_sink}

-- How a script ends: with a value as `fmtValue` prints it, or none; not in time; or it threw.
pub data Outcome : Type 0 where
  finished : Option (List ℕ) → Outcome
  late : Outcome
  threw : List ℕ → Outcome

pub record JsRun : Type 0 where
  pub is_ok : Bool
  pub output : List ℕ

abbrev pub is_ok_outcome : Outcome → Bool
is_ok_outcome (finished value) = true
is_ok_outcome late = false
is_ok_outcome (threw message) = false

abbrev pub tail_of : ℕ → Outcome → List ℕ
tail_of limit (finished none) = []
tail_of limit (finished (some value)) = value
tail_of limit late =
    codes "[timed out after "
    ++ (decimal ((limit + 500) / 1000) ++ codes "s — the timeout only interrupts code that awaits]")
tail_of limit (threw message) = message

-- `filter((s) => s !== '')` and `join('\n')`
unfoldable pub filled : List (List ℕ) → List (List ℕ)
filled [] = []
filled (s ∷ rest) = let more = filled rest in if is_empty s then more else s ∷ more

unfoldable pub lined : List (List ℕ) → List ℕ
lined [] = []
lined (s ∷ []) = s
lined (s ∷ t ∷ rest) = s ++ (10 ∷ lined (t ∷ rest))

abbrev pub cut_output : List ℕ → List ℕ
cut_output output =
    if ltb max_js_output (length output)
    then take max_js_output output ++ (10 ∷ codes "[truncated at 48000 chars]")
    else output

abbrev pub or_silent : List ℕ → List ℕ
or_silent [] = codes "(no output — the script logged nothing and returned undefined)"
or_silent (c ∷ cs) = c ∷ cs

unfoldable pub js_output : List (List ℕ) → List ℕ → List ℕ
js_output logs tail = or_silent (cut_output (lined (filled (logs ++ tail ∷ []))))

abbrev pub logs_of : Option (List (List ℕ)) → List (List ℕ)
logs_of none = []
logs_of (some logs) = logs

-- The end of the run whose sink has this number.
unfoldable pub end_run : ℕ → ℕ → Outcome → Page → JsRun × Page
end_run k limit outcome p = (
  record {
    is_ok = is_ok_outcome outcome;
    output = js_output (logs_of (lookup k p.sinks)) (tail_of limit outcome);
  },
  close_sink k p,
)

pub data JsReply : Type 0 where
  with_output : Bool → List ℕ → JsReply
  with_output_ref : Bool → List ℕ → ℕ → JsReply

abbrev pub timeout_of : (Json → Option Number) → Option Json → Option Number
timeout_of number none = none
timeout_of number (some v) = number v

module _ {S : Type 0} (io : RefIo S) where
  abbrev pub code_staged : (List ℕ → List ℕ) → Option Json → Serve S (List ℕ)
  code_staged decode none = pure []
  code_staged decode (some ref) = do bytes ← read_ref io (some ref); pure (decode bytes)

  abbrev pub code_of : (List ℕ → List ℕ) → Json → Serve S (List ℕ)
  code_of decode params =
      let code = or_nothing (as_string (property (codes "code") params)) in
      if is_empty code then code_staged decode (property (codes "codeRef") params) else pure code

  abbrev pub not_blank : List ℕ → Serve S (List ℕ)
  not_blank code s = if is_empty (trim code) then raise invalid_params s else pure code s

  -- `debug.js` up to the run: the code and the time that it has.
  unfoldable pub debug_start :
      (List ℕ → List ℕ) → (Json → Option Number) → Json → Serve S (List ℕ × ℕ)
  debug_start decode number params = do
    found ← code_of decode params
    code ← not_blank found
    pure (code, clamp_ms 10_000 (timeout_of number (property (codes "timeoutMs") params)))

  -- `debug.js` after the run.
  unfoldable pub debug_end : (List ℕ → List ℕ) → List ℕ → JsRun → Serve S JsReply
  debug_end encode id ran =
      let bytes = encode ran.output in
      if leb (length bytes) inline_max_size then pure (with_output ran.is_ok ran.output) else do
        path ← write_ref io (codes "js-" ++ (safe_id id ++ codes ".out")) bytes
        pure (with_output_ref ran.is_ok path (length bytes))
