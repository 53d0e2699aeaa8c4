-- ===== src/Examples/Windows.antt =====
-- Concrete runs of a desktop (web/app/window-manager.ts).
use vinx.Prelude.{◌↔◌, length, false, ◌≤◌, ◌≡◌, refl, true, none, some, List, [], ◌∷◌, text_eq, inl}
use vinx.Prelude.Assoc.{text_key, lookup, insert}
use vinx.Prelude.Text.{codes}
use vinx.Windows.{WebBundle, WindowSpec, web, Manager, new_manager, z_ceil, max_windows}
use vinx.Windows.Stacking.{lift, set_web, web_slot, raise, entry_of}
use vinx.Windows.Table.{create, StreamSpec, place}
use vinx.Windows.Session.{
  Deed, registers, raises, creates, opens_stream, exits, focuses, desktop_step, desktop_run,
}
use vinx.Windows.Band.{Raised, IsTable}
use vinx.Windows.Reachable.{IsDesktop, IsStacked-IsTable}
use vinx.Windows.Raising.{raise-Raised}
use vinx.Windows.Runs.{desktop_run-IsDesktop}
use vinx.Windows.Quiet.{place_refused}

abbrev page : WebBundle
page = record { html = codes "hi"; css = []; js = [] }

abbrev shell : StreamSpec
shell = record {
  stream = 3;
  app = codes "sh";
  cols = 80;
  rows = 24;
  window = 4096;
  unmanaged = true;
}

abbrev morning : List Deed
morning =
    registers (codes "screen")
    ∷ creates (codes "a") (codes "A") none page
    ∷ opens_stream shell
    ∷ raises (codes "a")
    ∷ focuses (codes "screen")
    ∷ exits (codes "sh") (some 0)
    ∷ []

desktop_run-IsDesktop_example : IsDesktop (desktop_run new_manager morning)
desktop_run-IsDesktop_example =
    desktop_run-IsDesktop morning (inl refl, (tt, (tt, (tt, (tt, (tt, tt))))))

abbrev two_apps : List Deed
two_apps =
    creates (codes "a") (codes "A") none page ∷ creates (codes "b") (codes "B") none page ∷ []

raise-Raised_example :
    Raised
      (web_slot (codes "a"))
      (desktop_run new_manager two_apps)
      (raise (codes "a") (desktop_run new_manager two_apps)).1
    × IsTable (raise (codes "a") (desktop_run new_manager two_apps)).1
    × ((raise (codes "a") (desktop_run new_manager two_apps)).1.z_next ≤ z_ceil)
unfolding desktop_run desktop_step insert lookup text_eq entry_of create place raise lift set_web
raise-Raised_example =
    raise-Raised (codes "a") (web_slot (codes "a")) 22 (desktop_run new_manager two_apps)
      (IsStacked-IsTable (desktop_run new_manager two_apps)
        (desktop_run-IsDesktop two_apps (tt, (tt, tt))).stacked)
      refl

abbrev new_app : WindowSpec
new_app = record { surface = web page; id = codes "a"; title = codes "A"; app_id = none }

abbrev one_app : Manager
one_app = desktop_run new_manager (creates (codes "b") (codes "B") none page ∷ [])

abbrev six_apps : List Deed
six_apps =
    creates (codes "a") [] none page
    ∷ creates (codes "b") [] none page
    ∷ creates (codes "c") [] none page
    ∷ creates (codes "d") [] none page
    ∷ creates (codes "e") [] none page
    ∷ creates (codes "f") [] none page
    ∷ []

abbrev full_desktop : Manager
full_desktop = desktop_run new_manager six_apps

abbrev seventh : WindowSpec
seventh = record { surface = web page; id = codes "g"; title = []; app_id = none }

place_refused_example :
    (((place seventh full_desktop).0 ≡ false)
      ↔ ((lookup seventh.id full_desktop.webs ≡ none) × (max_windows ≤ length full_desktop.webs)))
    × ((place seventh full_desktop).0 ≡ false
        → place seventh full_desktop ≡ (false, [], full_desktop))
place_refused_example = place_refused seventh full_desktop
