-- ===== src/Windows/Table.antt =====
-- What the desktop and its services do with the table of windows (web/app/window-manager.ts).
-- A native window is asked whether it is open by `shown`. An exit code is a natural number.
use vinx.Prelude.{
  ℕ, ◌+◌, Bool, true, false, not, ◌&&◌, ◌||◌, Option, none, some, List, [], ◌∷◌, ◌++◌, leb,
  if◌then◌else◌, text_eq, length, take,
}
use vinx.Prelude.Decimal.{decimal}
use vinx.Prelude.Text.{codes}
use vinx.Prelude.Assoc.{text_key, lookup, insert, erase, has}
use vinx.Windows.{
  WebBundle, Surface, web, tty, WindowSpec, WindowState, Rect, at_point, of_size, Out, ping, closed,
  open_native, close_native, set_rect, Manager, z_base, max_windows,
}
use vinx.Windows.Stacking.{raise}

abbrev pub handle_found : List ℕ → Option ℕ → Option WindowState → Manager → Manager
handle_found id handle none m = m
handle_found id handle (some w) m = record m {
  webs = insert id (record w { handle = handle }) m.webs;
}

unfoldable pub set_handle : List ℕ → Option ℕ → Manager → Manager
set_handle id handle m = handle_found id handle (lookup id m.webs) m

unfoldable pub register_native : List ℕ → Manager → List Out × Manager
register_native id m = (ping ∷ [], record m { natives = insert id z_base m.natives })

-- The function that `registerNative` returns.
unfoldable pub unregister_native : List ℕ → Manager → List Out × Manager
unregister_native id m = (ping ∷ [], record m { natives = erase id m.natives })

pub record Listed : Type 0 where
  pub id : List ℕ
  pub title : List ℕ
  pub surface : List ℕ
  pub is_open : Bool

abbrev pub surface_name : Surface → List ℕ
surface_name (web bundle) = codes "web"
surface_name (tty stream cols rows window) = codes "tty"

unfoldable pub list_natives : (List ℕ → Bool) → List (List ℕ × ℕ) → List Listed
list_natives shown [] = []
list_natives shown ((id, z) ∷ rest) =
    record { id = id; title = id; surface = codes "screen"; is_open = shown id }
    ∷ list_natives shown rest

unfoldable pub list_webs : List (List ℕ × WindowState) → List Listed
list_webs [] = []
list_webs ((id, w) ∷ rest) =
    record { id = id; title = w.spec.title; surface = surface_name w.spec.surface; is_open = true }
    ∷ list_webs rest

unfoldable pub list : (List ℕ → Bool) → Manager → List Listed
list shown m = list_natives shown m.natives ++ list_webs m.webs

-- `place`, with the window of that id if it is there; whether it threw.
abbrev pub placed_over : WindowSpec → Option WindowState → Manager → Manager
placed_over spec none m = record m {
  webs = insert spec.id (record { spec = spec; z = m.z_next; handle = none }) m.webs;
  z_next = m.z_next + 1;
}
placed_over spec (some w) m = record m { webs = insert spec.id (record w { spec = spec }) m.webs }

unfoldable pub place : WindowSpec → Manager → Bool × List Out × Manager
place spec m =
    if not (has spec.id m.webs) && leb max_windows (length m.webs)
    then (false, [], m)
    else let raised = raise spec.id (placed_over spec (lookup spec.id m.webs) m) in
      (true, raised.0, raised.1)

unfoldable pub create :
    List ℕ → List ℕ → Option (List ℕ) → WebBundle → Manager → Bool × List Out × Manager
create id title app_id bundle m =
    place (record { surface = web bundle; id = id; title = title; app_id = app_id }) m

abbrev pub stream_id : ℕ → List ℕ
stream_id stream = codes "tty-" ++ decimal stream

pub record StreamSpec : Type 0 where
  pub stream : ℕ
  pub app : List ℕ
  pub cols : ℕ
  pub rows : ℕ
  pub window : ℕ
  pub unmanaged : Bool

unfoldable pub open_stream : StreamSpec → Manager → Bool × List Out × Manager
open_stream s m =
    place
      (record {
        surface = tty s.stream s.cols s.rows s.window;
        id = stream_id s.stream;
        title = s.app;
        app_id = if s.unmanaged then none else some s.app;
      })
      m

unfoldable pub drop_stream : ℕ → Manager → Bool × List Out × Manager
drop_stream stream m =
    if has (stream_id stream) m.webs
    then (true, ping ∷ [], record m { webs = erase (stream_id stream) m.webs })
    else (false, [], m)

abbrev pub is_tty : Surface → Bool
is_tty (web bundle) = false
is_tty (tty stream cols rows window) = true

unfoldable pub without_streams : List (List ℕ × WindowState) → List (List ℕ × WindowState)
without_streams [] = []
without_streams ((id, w) ∷ rest) =
    let more = without_streams rest in if is_tty w.spec.surface then more else (id, w) ∷ more

unfoldable pub any_stream : List (List ℕ × WindowState) → Bool
any_stream [] = false
any_stream ((id, w) ∷ rest) = is_tty w.spec.surface || any_stream rest

unfoldable pub drop_all_streams : Manager → List Out × Manager
drop_all_streams m =
    (if any_stream m.webs then ping ∷ [] else [], record m { webs = without_streams m.webs })

-- `text.includes(part)`.
unfoldable pub includes : List ℕ → List ℕ → Bool
includes part [] = text_eq part []
includes part (c ∷ cs) = text_eq (take (length part) (c ∷ cs)) part || includes part cs

abbrev pub exit_note : Option ℕ → List ℕ
exit_note none = codes " (exited)"
exit_note (some code) = codes " (exited " ++ (decimal code ++ codes ")")

abbrev pub fronts : List ℕ → WindowSpec → Bool
fronts app spec =
    elim spec.app_id [ none ↦ false | some a ↦ text_eq a app ]
    && not (includes (codes "(exited") spec.title)

abbrev pub marked : List ℕ → Option ℕ → WindowState → WindowState
marked app code w =
    if fronts app w.spec
    then record w { spec = record (w.spec) { title = w.spec.title ++ exit_note code } }
    else w

unfoldable pub mark_over :
    List ℕ → Option ℕ → List (List ℕ × WindowState) → List (List ℕ × WindowState)
mark_over app code [] = []
mark_over app code ((id, w) ∷ rest) = (id, marked app code w) ∷ mark_over app code rest

unfoldable pub any_fronts : List ℕ → List (List ℕ × WindowState) → Bool
any_fronts app [] = false
any_fronts app ((id, w) ∷ rest) = fronts app w.spec || any_fronts app rest

unfoldable pub mark_exited : List ℕ → Option ℕ → Manager → List Out × Manager
mark_exited app code m =
    (if any_fronts app m.webs then ping ∷ [] else [], record m { webs = mark_over app code m.webs })

abbrev pub close_web : List ℕ → Option WindowState → Manager → Bool × List Out × Manager
close_web id none m = (false, [], m)
close_web id (some w) m =
    (true, ping ∷ closed id w.spec.app_id ∷ [], record m { webs = erase id m.webs })

unfoldable pub close : (List ℕ → Bool) → List ℕ → Manager → Bool × List Out × Manager
close shown id m =
    if has id m.natives
    then (true, if shown id then close_native id ∷ ping ∷ [] else [], m)
    else close_web id (lookup id m.webs) m

unfoldable pub focus : List ℕ → Manager → Bool × List Out × Manager
focus id m =
    if has id m.natives
    then (true, open_native id ∷ (raise id m).0, (raise id m).1)
    else if has id m.webs
    then (true, (raise id m).0, (raise id m).1)
    else (false, [], m)

abbrev pub rect_found : Option WindowState → Rect → Bool × List Out
rect_found none rect = (false, [])
rect_found (some w) rect = elim w.handle [
  | none ↦ (false, [])
  | some handle ↦ (true, set_rect handle rect ∷ [])
]

unfoldable pub move : List ℕ → ℕ → ℕ → Manager → Bool × List Out
move id x y m = rect_found (lookup id m.webs) (at_point x y)

unfoldable pub resize : List ℕ → ℕ → ℕ → Manager → Bool × List Out
resize id w h m = rect_found (lookup id m.webs) (of_size w h)
