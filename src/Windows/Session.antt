-- ===== src/Windows/Session.antt =====
-- A desktop from its first moment on: what its pages, services and guest do with its windows
-- (web/app/window-manager.ts).
use vinx.Prelude.{ℕ, Bool, Option, List, [], ◌∷◌}
use vinx.Windows.{WebBundle, Manager}
use vinx.Windows.Stacking.{raise}
use vinx.Windows.Table.{
  set_handle, register_native, unregister_native, create, StreamSpec, open_stream, drop_stream,
  drop_all_streams, mark_exited, close, focus,
}

pub data Deed : Type 0 where
  mounts : List ℕ → Option ℕ → Deed
  registers : List ℕ → Deed
  unregisters : List ℕ → Deed
  raises : List ℕ → Deed
  creates : List ℕ → List ℕ → Option (List ℕ) → WebBundle → Deed
  opens_stream : StreamSpec → Deed
  drops_stream : ℕ → Deed
  drops_streams : Deed
  exits : List ℕ → Option ℕ → Deed
  -- with whether the native window of that name is open
  closes : List ℕ → Bool → Deed
  focuses : List ℕ → Deed

unfoldable pub desktop_step : Manager → Deed → Manager
desktop_step m (mounts id handle) = set_handle id handle m
desktop_step m (registers id) = (register_native id m).1
desktop_step m (unregisters id) = (unregister_native id m).1
desktop_step m (raises id) = (raise id m).1
desktop_step m (creates id title app_id bundle) = (create id title app_id bundle m).2
desktop_step m (opens_stream s) = (open_stream s m).2
desktop_step m (drops_stream stream) = (drop_stream stream m).2
desktop_step m drops_streams = (drop_all_streams m).1
desktop_step m (exits app code) = (mark_exited app code m).1
desktop_step m (closes id shown) = (close (λ native. shown) id m).2
desktop_step m (focuses id) = (focus id m).2

unfoldable pub desktop_run : Manager → List Deed → Manager
desktop_run m [] = m
desktop_run m (d ∷ ds) = desktop_run (desktop_step m d) ds
