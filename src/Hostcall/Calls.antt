-- ===== src/Hostcall/Calls.antt =====
-- The window.* methods of web/app/hostcall.ts, over the window table of the desktop. A method's one
-- wait is the reading of a bundle, before it looks at the table. JSON and the text decoder are
-- `parse` and `decode`; a number of a call is a natural number or fails the method's tests.
use vinx.Prelude.{
  ℕ, ◌+◌, ◌*◌, Bool, true, false, ◌&&◌, ◌||◌, Option, none, some, List, [], ◌∷◌, ◌++◌, ltb, leb,
  ◌==◌, if◌then◌else◌, length, take, all, text_eq,
}
use vinx.Prelude.Decimal.{decimal}
use vinx.Prelude.Text.{codes, trim, is_empty}
use vinx.Rpc.Json.{Json, property, as_string}
use vinx.Windows.{WebBundle, Out, Manager}
use vinx.Windows.Table.{Listed, list, create, close, focus, move, resize}
use vinx.Hostcall.{
  invalid_params, unavailable, resource_invalid, Result, ok, err, RefIo, Serve, pure, raise,
  or_raise, ◌>>=◌,
}
use vinx.Hostcall.Refs.{or_nothing, read_ref}

abbrev pub bundle_max : ℕ
bundle_max = 512 * 1024

-- The files, the table, how many windows without an app were made, and what the table asked for.
pub record Desk (S : Type 0) : Type 0 where
  pub files : S
  pub table : Manager
  pub anon_windows : ℕ
  pub outs : List Out

-- `part(k)` of parseBundle; `none`: it throws.
abbrev pub bundle_part : Option Json → Option (List ℕ)
bundle_part none = some []
bundle_part (some v) = as_string (some v)

abbrev pub bundle_of : Option (List ℕ) → Option (List ℕ) → Option (List ℕ) → Option WebBundle
bundle_of (some html) (some css) (some js) =
    if is_empty html && is_empty js then none else some (record { html = html; css = css; js = js })
bundle_of _ _ _ = none

abbrev pub bundle_in : Option Json → Option WebBundle
bundle_in none = none
bundle_in (some v) =
    bundle_of (bundle_part (property (codes "html") v)) (bundle_part (property (codes "css") v))
      (bundle_part (property (codes "js") v))

-- `[a-z0-9]`, and with the dash.
abbrev pub is_app_char : ℕ → Bool
is_app_char c = (leb b'a' c && leb c b'z') || (leb b'0' c && leb c b'9')

abbrev pub is_app_or_dash : ℕ → Bool
is_app_or_dash c = is_app_char c || c == b'-'

-- `/^[a-z0-9][a-z0-9-]{0,31}$/`
unfoldable pub is_app : List ℕ → Bool
is_app [] = false
is_app (c ∷ cs) = is_app_char c && (leb (length cs) 31 && all is_app_or_dash cs)

abbrev pub app_of : Option (List ℕ) → Option (List ℕ)
app_of none = none
app_of (some app) = if is_app app then some app else none

abbrev pub title_of : Option (List ℕ) → List ℕ → List ℕ
title_of none id = id
title_of (some title) id = if is_empty (trim title) then id else take 48 (trim title)

module _ (parse : List ℕ → Option Json) (decode : List ℕ → List ℕ) where
  unfoldable pub parse_bundle : List ℕ → Result WebBundle
  parse_bundle bytes =
      if ltb bundle_max (length bytes)
      then err invalid_params
      else elim (bundle_in (parse (decode bytes))) [ none ↦ err resource_invalid | some b ↦ ok b ]

abbrev pub moved_by : (Manager → Bool × List Out) → Manager → Bool × List Out × Manager
moved_by op m = let (done, outs) = op m in (done, outs, m)

abbrev pub both : Option ℕ → Option ℕ → Option (ℕ × ℕ)
both (some a) (some b) = some (a, b)
both _ _ = none

abbrev pub at_least_one : Option (ℕ × ℕ) → Option (ℕ × ℕ)
at_least_one none = none
at_least_one (some (w, h)) = if ltb w 1 || ltb h 1 then none else some (w, h)

-- `focus_window` is the older broadcast of the screen's panels; without one nobody answers.
abbrev pub focus_asked : Bool → (List ℕ → Bool) → List ℕ → Manager → Bool × List Out × Manager
focus_asked has_table focus_window id m =
    let (done, outs, m') = if has_table then focus id m else (false, [], m) in
    (done || focus_window id, outs, m')

-- `create` of the table as web/app/vm.ts lends it: it throws where the app shell is missing.
abbrev pub lent_create :
    Bool → List ℕ → List ℕ → Option (List ℕ) → WebBundle → Manager → Bool × List Out × Manager
lent_create false id title app bundle m = (false, [], m)
lent_create true id title app bundle m = create id title app bundle m

module _ {S : Type 0} where
  -- An operation of the table, and what the caller is told if it did not go through.
  abbrev pub on_table : (Manager → Bool × List Out × Manager) → Serve (Desk S) Unit
  on_table op d =
      let (done, outs, m) = op d.table in
      (if done then ok tt else err unavailable, record d { table = m; outs = d.outs ++ outs })

  abbrev pub from_files : {A : Type 0} → Serve S A → Serve (Desk S) A
  from_files read d = let (r, files) = read d.files in (r, record d { files = files })

  abbrev pub want_table : Bool → Serve (Desk S) Unit
  want_table true = pure tt
  want_table false = raise unavailable

  abbrev pub want_id : Json → Serve (Desk S) (List ℕ)
  want_id params d =
      let id = or_nothing (as_string (property (codes "id") params)) in
      (if is_empty id then err invalid_params else ok id, d)

  abbrev pub window_named : Option (List ℕ) → Serve (Desk S) (List ℕ)
  window_named (some app) d = (ok app, d)
  window_named none d = (
    ok (codes "web-" ++ decimal (d.anon_windows + 1)),
    record d { anon_windows = d.anon_windows + 1 },
  )

  abbrev pub want_web : Option (List ℕ) → Serve (Desk S) Unit
  want_web none = raise invalid_params
  want_web (some surface) =
      λ d. (if text_eq surface (codes "web") then ok tt else err invalid_params, d)

  -- `window.create`, once its bundle is there.
  abbrev pub create_for : Bool → Option (List ℕ) → Json → WebBundle → Serve (Desk S) (List ℕ)
  create_for has_shell app params bundle = do
    id ← window_named app
    _ ← on_table (
        lent_create has_shell id (title_of (as_string (property (codes "title") params)) id) app
          bundle)
    pure id

  abbrev pub or_bundle : Result WebBundle → Serve (Desk S) WebBundle
  or_bundle r d = (r, d)

  module _ (io : RefIo S) (parse : List ℕ → Option Json) (decode : List ℕ → List ℕ)
      (has_table has_shell : Bool) where
    unfoldable pub window_create : Json → Serve (Desk S) (List ℕ)
    window_create params = do
      _ ← want_table has_table
      _ ← want_web (as_string (property (codes "surface") params))
      bytes ← from_files (read_ref io (property (codes "bundleRef") params))
      bundle ← or_bundle (parse_bundle parse decode bytes)
      create_for has_shell (app_of (as_string (property (codes "app") params))) params bundle

  module _ (shown : List ℕ → Bool) (has_table : Bool) where
    unfoldable pub window_list : Serve (Desk S) (List Listed)
    window_list = do _ ← want_table has_table; λ d. (ok (list shown d.table), d)

    unfoldable pub window_close : Json → Serve (Desk S) Unit
    window_close params = do
      _ ← want_table has_table
      id ← want_id params
      on_table (close shown id)

    -- `number`: a number of the call, rounded; `none` if it is not finite.
    module _ (number : Option Json → Option ℕ) where
      unfoldable pub window_move : Json → Serve (Desk S) Unit
      window_move params = do
        _ ← want_table has_table
        id ← want_id params
        to ←
            or_raise
              (both (number (property (codes "x") params)) (number (property (codes "y") params)))
              invalid_params
        on_table (moved_by (move id to.0 to.1))

      unfoldable pub window_resize : Json → Serve (Desk S) Unit
      window_resize params = do
        _ ← want_table has_table
        id ← want_id params
        to ←
            or_raise
              (at_least_one (
                both (number (property (codes "w") params)) (number (property (codes "h") params))))
              invalid_params
        on_table (moved_by (resize id to.0 to.1))

    unfoldable pub window_focus : (List ℕ → Bool) → Json → Serve (Desk S) Unit
    window_focus focus_window params = do
      id ← want_id params
      on_table (focus_asked has_table focus_window id)
