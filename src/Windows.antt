-- ===== src/Windows.antt =====
-- class WindowManager of web/app/window-manager.ts: the windows of one desktop and their stacking.
-- A mounted DesktopWindow is a number. The listeners and callbacks that are subscribed, and the
-- native windows of the pages, are outside: what the table asks of them is an `Out`, in order.
pub mod Stacking
pub mod Table
pub mod Numbered
pub mod Numbers
pub mod Band
pub mod Raising
pub mod Session
pub mod Reachable
pub mod Desktop
pub mod Runs
pub mod Quiet
use vinx.Prelude.{ℕ, ◌+◌, Bool, Option, none, some, List, [], ◌∷◌, ◌++◌, map}

pub record WebBundle : Type 0 where
  pub html : List ℕ
  pub css : List ℕ
  pub js : List ℕ

-- What a window shows: a bundle, or a stream of the guest by its number, size and send window.
pub data Surface : Type 0 where
  web : WebBundle → Surface
  tty : ℕ → ℕ → ℕ → ℕ → Surface

pub record WindowSpec : Type 0 where
  pub surface : Surface
  pub id : List ℕ
  pub title : List ℕ
  pub app_id : Option (List ℕ)

pub record WindowState : Type 0 where
  pub spec : WindowSpec
  pub z : ℕ
  pub handle : Option ℕ

abbrev pub z_base : ℕ
z_base = 20

abbrev pub z_ceil : ℕ
z_ceil = 29

abbrev pub max_windows : ℕ
max_windows = 6

pub data Rect : Type 0 where
  at_point : ℕ → ℕ → Rect
  of_size : ℕ → ℕ → Rect

pub data Out : Type 0 where
  ping : Out
  closed : List ℕ → Option (List ℕ) → Out
  focused : List ℕ → Out
  -- `win.open()` and `win.close()` of a native window, `handle.setRect(...)` of an app window
  open_native : List ℕ → Out
  close_native : List ℕ → Out
  set_rect : ℕ → Rect → Out

-- A native window by its place in the stack; whether it is open, its page knows.
pub record Manager : Type 0 where
  pub webs : List (List ℕ × WindowState)
  pub natives : List (List ℕ × ℕ)
  pub z_next : ℕ

abbrev pub new_manager : Manager
new_manager = record { webs = []; natives = []; z_next = z_base + 1 }
