-- ===== src/Hostcall/Console.antt =====
-- The console of the page while scripts run on it (web/app/hostcall.ts: openSink, closeSink). A run
-- is numbered by its sink. What is logged are the arguments as `fmtValue` makes them texts.
-- A script that assigns to the console itself is left out.
use vinx.Prelude.{ℕ, ◌+◌, Bool, true, false, Option, none, some, List, [], ◌∷◌, ◌++◌, if◌then◌else◌}
use vinx.Prelude.Text.{codes}
use vinx.Prelude.Assoc.{nat_eq, insert, erase}

pub data Level : Type 0 where
  log warn error : Level

-- A function of the console: the page's own, or the wrapper that `capture` makes around one.
pub data Printer : Type 0 where
  real : Level → Printer
  capture : List ℕ → Printer → Printer

pub record Console : Type 0 where
  pub log_with : Printer
  pub warn_with : Printer
  pub error_with : Printer

pub record Page : Type 0 where
  pub console : Console
  pub hijacked : Option Console
  pub sinks : List (ℕ × List (List ℕ))
  pub next_sink : ℕ
  -- what the page's own console was given
  pub printed : List (Level × List (List ℕ))

abbrev pub real_console : Console
real_console = record { log_with = real log; warn_with = real warn; error_with = real error }

abbrev pub new_page : Page
new_page = record {
  console = real_console;
  hijacked = none;
  sinks = [];
  next_sink = 0;
  printed = [];
}

abbrev pub captured : Console → Console
captured c = record {
  log_with = capture [] c.log_with;
  warn_with = capture (codes "[warn] ") c.warn_with;
  error_with = capture (codes "[error] ") c.error_with;
}

abbrev pub hijack : Option Console → Page → Page
hijack (some before) p = p
hijack none p = record p { hijacked = some p.console; console = captured p.console }

unfoldable pub open_sink : Page → Page
open_sink p =
    let p' = hijack p.hijacked p in
    record p' { sinks = insert p'.next_sink [] p'.sinks; next_sink = p'.next_sink + 1 }

abbrev pub is_none_open : List (ℕ × List (List ℕ)) → Bool
is_none_open [] = true
is_none_open (s ∷ ss) = false

abbrev pub give_back : Option Console → Page → Page
give_back none p = p
give_back (some before) p = record p { console = before; hijacked = none }

unfoldable pub close_sink : ℕ → Page → Page
close_sink k p =
    let p' = record p { sinks = erase k p.sinks } in
    if is_none_open p'.sinks then give_back p'.hijacked p' else p'

-- `join(' ')`
unfoldable pub spaced : List (List ℕ) → List ℕ
spaced [] = []
spaced (s ∷ []) = s
spaced (s ∷ t ∷ rest) = s ++ (b' ' ∷ spaced (t ∷ rest))

unfoldable pub push_line : List ℕ → List (ℕ × List (List ℕ)) → List (ℕ × List (List ℕ))
push_line line [] = []
push_line line ((k, lines) ∷ rest) = (k, lines ++ line ∷ []) ∷ push_line line rest

unfoldable pub print : Printer → List (List ℕ) → Page → Page
print (real level) args p = record p { printed = p.printed ++ (level, args) ∷ [] }
print (capture tag through) args p =
    print through args (record p { sinks = push_line (tag ++ spaced args) p.sinks })

abbrev pub printer_of : Level → Console → Printer
printer_of log c = c.log_with
printer_of warn c = c.warn_with
printer_of error c = c.error_with

-- What happens on the page, in any order.
pub data Act : Type 0 where
  opens : Act
  closes : ℕ → Act
  says : Level → List (List ℕ) → Act

unfoldable pub page_step : Page → Act → Page
page_step p opens = open_sink p
page_step p (closes k) = close_sink k p
page_step p (says level args) = print (printer_of level p.console) args p

unfoldable pub page_run : Page → List Act → Page
page_run p [] = p
page_run p (a ∷ rest) = page_run (page_step p a) rest
