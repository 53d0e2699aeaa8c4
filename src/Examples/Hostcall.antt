-- ===== src/Examples/Hostcall.antt =====
-- Concrete calls of the page (web/app/hostcall.ts): a response that goes into a file, and two runs of
-- scripts that overlap.
use vinx.Prelude.{
  Option, ℕ, ◌≡◌, refl, sym, ap, ◌∙◌, if_true, inl, true, false, none, some, List, [], ◌∷◌, ltb,
  length, take, joined, text_eq_refl, text_eq,
}
use vinx.Prelude.Assoc.{text_key, nat_eq, lookup, insert, lookup-insert}
use vinx.Prelude.Text.{codes}
use vinx.Rpc.Json.{Json, whole, obj, str, field, end, property, get_field, as_string}
use vinx.Hostcall.{RefIo, max_fetch_bytes}
use vinx.Hostcall.Fetch.{Stream, Response, Web, body_init}
use vinx.Hostcall.Reply.{FetchReply, http_fetch}
use vinx.Hostcall.Staged.{IsRefIo}
use vinx.Hostcall.Delivery.{IsWeb, IsDelivered, http_fetch-IsDelivered}
use vinx.Hostcall.Devices.{write, ask}
use vinx.Hostcall.Guards.{AllOk}
use vinx.Hostcall.Confined.{IsAllowed, ask-IsAllowed}
use vinx.Hostcall.Script.{finished, js_output, end_run, debug_end}
use vinx.Hostcall.Answered.{IsAnswered, debug_end-heard}
use vinx.Windows.{WebBundle, new_manager}
use vinx.Hostcall.Refs.{read_ref, ref_path}
use vinx.Hostcall.Calls.{Desk, app_of, parse_bundle, window_create}
use vinx.Hostcall.Shown.{IsOpened, window_create-IsOpened}
use vinx.Hostcall.Console.{new_page, log, warn, Act, opens, closes, says, spaced, page_run}
use vinx.Hostcall.Captures.{heard, said, page_run_captures}
use vinx.Hostcall.Sharing.{shared}

some_inj : {A : Type 0} {a b : A} → some a ≡ some b → a ≡ b
some_inj e = cc

abbrev Files : Type 0
Files = List (List ℕ × List ℕ)

abbrev shelf : RefIo Files
shelf = record {
  read = λ s path. lookup path s;
  write = λ s path bytes. some (insert path bytes s);
}

shelf_keeps : IsRefIo shelf
shelf_keeps = record {
  read-write = λ s s' path bytes e.
      ap (lookup path) (some_inj (sym e))
      ∙ lookup-insert path path bytes s
      ∙ if_true (text_eq path path) _ _ (text_eq_refl path);
}

abbrev stream : Stream
stream = record { chunks = codes "ab" ∷ [] ∷ codes "c" ∷ []; ends = true }

abbrev response : Response
response = record {
  status = whole 200;
  status_text = codes "OK";
  url = codes "http://a/";
  headers = [];
  body = some stream;
}

abbrev net : Web
net = record {
  resolve = λ url. some url;
  atob = λ t. some t;
  btoa = λ b. b;
  encode = λ t. t;
  decode = λ b. some b;
  fetch = λ asked. some response;
  aborted = λ asked. (false, false);
}

net_promises : IsWeb net
net_promises = record { atob-btoa = λ b. refl; encode-decode = λ b t e. inl (some_inj (sym e)) }

abbrev heavy : FetchReply → ℕ
heavy reply = 5000

abbrev params : Json
params = obj (field (codes "url") (str (codes "http://a/")) end)

http_fetch-IsDelivered_example :
    IsDelivered shelf net
      (ltb max_fetch_bytes (length (joined stream.chunks)))
      (take max_fetch_bytes (joined stream.chunks))
      []
      (http_fetch shelf net heavy (codes "g.1.1") params [])
unfolding property get_field body_init text_eq
http_fetch-IsDelivered_example =
    http_fetch-IsDelivered shelf net shelf_keeps net_promises heavy (codes "g.1.1") params [] none
      (codes "http://a/") none response stream refl refl refl refl refl refl

abbrev two_runs : List Act
two_runs = opens ∷ says log (codes "x" ∷ []) ∷ opens ∷ says warn (codes "y" ∷ []) ∷ closes 0 ∷ []

page_run_captures_example :
    (lookup 1 (page_run new_page two_runs).sinks ≡ heard 1 0 two_runs)
    × ((page_run new_page two_runs).printed ≡ said two_runs)
    × ((page_run new_page two_runs).console ≡ shared (page_run new_page two_runs).sinks)
page_run_captures_example = page_run_captures two_runs 1

abbrev desk : Desk Files
desk = record {
  files = (codes "/data/.vinx/tmp/b", codes "{}") ∷ [];
  table = new_manager;
  anon_windows = 0;
  outs = [];
}

abbrev bundle : WebBundle
bundle = record { html = codes "<p>"; css = []; js = [] }

abbrev parses : List ℕ → Option Json
parses t = some (obj (field (codes "html") (str (codes "<p>")) end))

abbrev asks : Json
asks = obj (
    field (codes "surface") (str (codes "web")) (
      field (codes "bundleRef") (obj (field (codes "path") (str (codes "/data/.vinx/tmp/b")) end))
        end))

window_create-IsOpened_example :
    IsOpened true
      (app_of (as_string (property (codes "app") asks)))
      asks
      bundle
      desk
      (window_create shelf parses (λ b. b) true true asks desk)
unfolding property get_field text_eq read_ref ref_path lookup parse_bundle
window_create-IsOpened_example =
    window_create-IsOpened shelf parses (λ b. b) true asks (codes "{}") bundle desk refl refl refl

abbrev half_run : List Act
half_run = opens ∷ says log (codes "x" ∷ []) ∷ opens ∷ says warn (codes "y" ∷ []) ∷ []

-- The first run ends with 42 while the second is open.
debug_end-heard_example :
    IsAnswered shelf
      (λ t. t)
      (record { is_ok = true; output = js_output (codes "x" ∷ codes "[warn] y" ∷ []) (codes "42") })
      []
      (debug_end shelf
        (λ t. t)
        (codes "g.1.2")
        (end_run 0 1000 (finished (some (codes "42"))) (page_run new_page half_run)).0
        [])
unfolding spaced
debug_end-heard_example =
    debug_end-heard shelf (λ t. t) shelf_keeps half_run 0 1000 (finished (some (codes "42")))
      (codes "x" ∷ codes "[warn] y" ∷ []) (codes "g.1.2") [] refl

abbrev writes : Json
writes = obj (
    field (codes "svc") (str (codes "180f"))
      (field (codes "chr") (str (codes "2a19")) (field (codes "hex") (str (codes "0aFF")) end)))

ask-IsAllowed_example :
    AllOk
      (λ d s. IsAllowed shelf (λ what. true) desk.files d × (s ≡ desk.files))
      (ask shelf (λ what. true) write writes desk.files)
ask-IsAllowed_example = ask-IsAllowed shelf (λ what. true) write writes desk.files
