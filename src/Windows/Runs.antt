-- ===== src/Windows/Runs.antt =====
-- The table of windows after any deeds on a desktop (web/app/window-manager.ts).
use vinx.Prelude.{
  ℕ, ◌+◌, ◌≤◌, ◌<◌, ◌≡◌, Bool, true, false, Option, none, some, List, [], ◌∷◌, arith, leb,
  text_eq_refl, length, Bool-cases, Option-cases, inl, inr, All, All-map,
}
use vinx.Prelude.Assoc.{
  text_key, lookup, insert, has, insert-Distinct, length-insert, insert-All, lookup-All,
  lookup-insert, lookup_pos,
}
use vinx.Windows.{WindowSpec, WindowState, Manager, new_manager, z_base, max_windows}
use vinx.Windows.Stacking.{web_slot, entry_of, raise}
use vinx.Windows.Table.{
  placed_over, place, create, open_stream, stream_id, drop_stream, without_streams,
  drop_all_streams, mark_over, mark_exited, close, focus,
}
use vinx.Windows.Reachable.{IsPage, IsStacked, IsDesktop, lift-IsDesktop, raise-IsDesktop}
use vinx.Windows.Desktop.{
  with_webs, mark_over_kept, without_streams_kept, erase_web, set_handle-IsDesktop,
  register_native-IsDesktop, unregister_native-IsDesktop, length-insert_found,
}
use vinx.Windows.Session.{
  Deed, mounts, registers, unregisters, raises, creates, opens_stream, drops_stream, drops_streams,
  exits, closes, focuses, desktop_step, desktop_run,
}

-- `place` before its window is raised: a new window takes the next number, a known one keeps its own.
replaced-IsStacked :
    (spec : WindowSpec) (w : WindowState) (m : Manager)
    → IsDesktop m
    → lookup spec.id m.webs ≡ some w
    → IsStacked (placed_over spec (some w) m)
replaced-IsStacked spec w m h there =
    (with_webs m (insert spec.id (record w { spec = spec }) m.webs) h
      (insert-Distinct spec.id (record w { spec = spec }) m.webs h.stacked.webs_distinct)
      (omega (arith, length-insert_found spec.id w (record w { spec = spec }) m.webs there))
      (insert-All (λ w. (z_base ≤ w.z) × (w.z < m.z_next)) spec.id (record w { spec = spec }) m.webs
        h.stacked.webs_within
        (lookup-All (λ w. (z_base ≤ w.z) × (w.z < m.z_next)) spec.id w m.webs h.stacked.webs_within
          there))).stacked

pub added-IsStacked :
    (spec : WindowSpec) (m : Manager)
    → IsDesktop m
    → lookup spec.id m.webs ≡ none
    → length m.webs < max_windows
    → IsStacked (placed_over spec none m)
added-IsStacked spec m h absent room =
    let w : WindowState = record { spec = spec; z = m.z_next; handle = none } in
    record {
      webs_distinct = insert-Distinct spec.id w m.webs h.stacked.webs_distinct;
      natives_distinct = h.stacked.natives_distinct;
      webs_fit = ground (arith, length-insert spec.id w m.webs);
      pages = h.stacked.pages;
      webs_within =
          insert-All (λ w. (z_base ≤ w.z) × (w.z < m.z_next + 1)) spec.id w m.webs
            (All-map (λ (e : List ℕ × WindowState). (z_base ≤ e.1.z) × (e.1.z < m.z_next))
              (λ (e : List ℕ × WindowState). (z_base ≤ e.1.z) × (e.1.z < m.z_next + 1)) m.webs
              (λ e b. (b.0, omega (arith, b.1))) h.stacked.webs_within)
            (omega (arith, h.stacked.low), omega arith);
      natives_within =
          All-map (λ (e : List ℕ × ℕ). (z_base ≤ e.1) × (e.1 < m.z_next))
            (λ (e : List ℕ × ℕ). (z_base ≤ e.1) × (e.1 < m.z_next + 1)) m.natives
            (λ e b. (b.0, omega (arith, b.1))) h.stacked.natives_within;
      low = omega (arith, h.stacked.low);
    }

-- A window that was just placed is found and raised.
raise_placed :
    (id : List ℕ) (w : WindowState) (m : Manager)
    → lookup id m.webs ≡ some w
    → IsStacked m
    → IsDesktop (raise id m).1
unfolding raise entry_of
raise_placed id w m e h =
    rw e (lift-IsDesktop (web_slot id) m h (omega (arith, lookup_pos id w m.webs e)))

inserted :
    (id : List ℕ) (w : WindowState) (ws : List (List ℕ × WindowState))
    → lookup id (insert id w ws) ≡ some w
inserted id w ws = ground (arith, lookup-insert id id w ws, text_eq_refl id)

place-IsDesktop : (spec : WindowSpec) (m : Manager) → IsDesktop m → IsDesktop (place spec m).2
unfolding place
place-IsDesktop spec m h = elim (Option-cases (lookup spec.id m.webs)) [
  | inr (w, there) ↦
      rw (known w there, there)
        (raise_placed spec.id (record w { spec = spec }) (placed_over spec (some w) m)
          (inserted spec.id (record w { spec = spec }) m.webs)
          (replaced-IsStacked spec w m h there))
  | inl absent ↦ elim (Bool-cases (leb max_windows (length m.webs))) [
    | inl full ↦ rw (unknown absent, full) h
    | inr room ↦
        rw (unknown absent, absent, room)
          (raise_placed spec.id (record { spec = spec; z = m.z_next; handle = none })
            (placed_over spec none m)
            (inserted spec.id (record { spec = spec; z = m.z_next; handle = none }) m.webs)
            (added-IsStacked spec m h absent (ground (arith))))
  ]
]
  where
    known : (w : WindowState) → lookup spec.id m.webs ≡ some w → has spec.id m.webs ≡ true
    known w there = ground arith

    unknown : lookup spec.id m.webs ≡ none → has spec.id m.webs ≡ false
    unknown absent = ground arith

drop_stream-IsDesktop :
    (stream : ℕ) (m : Manager) → IsDesktop m → IsDesktop (drop_stream stream m).2
unfolding drop_stream
drop_stream-IsDesktop stream m h = elim (Bool-cases (has (stream_id stream) m.webs)) [
  | inl there ↦ rw there (erase_web (stream_id stream) m h)
  | inr absent ↦ rw absent h
]

drop_all-IsDesktop : (m : Manager) → IsDesktop m → IsDesktop (drop_all_streams m).1
unfolding drop_all_streams
drop_all-IsDesktop m h =
    let r = without_streams_kept m.z_next m.webs h.stacked.webs_distinct h.stacked.webs_within in
    with_webs m (without_streams m.webs) h r.0 r.1 r.2

mark_exited-IsDesktop :
    (app : List ℕ) (code : Option ℕ) (m : Manager)
    → IsDesktop m
    → IsDesktop (mark_exited app code m).1
unfolding mark_exited
mark_exited-IsDesktop app code m h =
    let r = mark_over_kept app code m.z_next m.webs h.stacked.webs_distinct h.stacked.webs_within in
    with_webs m (mark_over app code m.webs) h r.0 r.1 r.2

close-IsDesktop :
    (shown : List ℕ → Bool) (id : List ℕ) (m : Manager)
    → IsDesktop m
    → IsDesktop (close shown id m).2
unfolding close
close-IsDesktop shown id m h = elim (Bool-cases (has id m.natives)) [
  | inl native ↦ rw native h
  | inr other ↦ elim (Option-cases (lookup id m.webs)) [
    | inl absent ↦ rw (other, absent) h
    | inr (w, there) ↦ rw (other, there) (erase_web id m h)
  ]
]

focus-IsDesktop : (id : List ℕ) (m : Manager) → IsDesktop m → IsDesktop (focus id m).2
unfolding focus
focus-IsDesktop id m h = elim (Bool-cases (has id m.natives)) [
  | inl native ↦ rw native (raise-IsDesktop id m h)
  | inr other ↦ elim (Bool-cases (has id m.webs)) [
    | inl there ↦ rw (other, there) (raise-IsDesktop id m h)
    | inr absent ↦ rw (other, absent) h
  ]
]

-- The pages register their own two windows only.
abbrev pub OfPages : Deed → Type 0
OfPages (registers id) = IsPage id
OfPages (mounts id handle) = Unit {0}
OfPages (unregisters id) = Unit {0}
OfPages (raises id) = Unit {0}
OfPages (creates id title app_id bundle) = Unit {0}
OfPages (opens_stream s) = Unit {0}
OfPages (drops_stream stream) = Unit {0}
OfPages drops_streams = Unit {0}
OfPages (exits app code) = Unit {0}
OfPages (closes id shown) = Unit {0}
OfPages (focuses id) = Unit {0}

desktop_step-IsDesktop :
    (m : Manager) (d : Deed) → OfPages d → IsDesktop m → IsDesktop (desktop_step m d)
unfolding desktop_step create open_stream
desktop_step-IsDesktop m (registers id) p h = register_native-IsDesktop id m p h
desktop_step-IsDesktop m (mounts id handle) p h = set_handle-IsDesktop id handle m h
desktop_step-IsDesktop m (unregisters id) p h = unregister_native-IsDesktop id m h
desktop_step-IsDesktop m (raises id) p h = raise-IsDesktop id m h
desktop_step-IsDesktop m (creates id title app_id bundle) p h = place-IsDesktop _ m h
desktop_step-IsDesktop m (opens_stream s) p h = place-IsDesktop _ m h
desktop_step-IsDesktop m (drops_stream stream) p h = drop_stream-IsDesktop stream m h
desktop_step-IsDesktop m drops_streams p h = drop_all-IsDesktop m h
desktop_step-IsDesktop m (exits app code) p h = mark_exited-IsDesktop app code m h
desktop_step-IsDesktop m (closes id shown) p h = close-IsDesktop (λ native. shown) id m h
desktop_step-IsDesktop m (focuses id) p h = focus-IsDesktop id m h

desktop_run_kept :
    (m : Manager) (ds : List Deed) → All OfPages ds → IsDesktop m → IsDesktop (desktop_run m ds)
unfolding desktop_run
desktop_run_kept m [] p h = h
desktop_run_kept m (d ∷ ds) p h =
    desktop_run_kept (desktop_step m d) ds p.1 (desktop_step-IsDesktop m d p.0 h)

-- Whatever is done with the windows of a desktop, where the pages register no native windows but the
-- screen and the console: it shows at most six app windows, none twice, and every window is numbered
-- from 20 up, below the next number, which is at most 29.
pub desktop_run-IsDesktop :
    (ds : List Deed) → All OfPages ds → IsDesktop (desktop_run new_manager ds)
desktop_run-IsDesktop ds p = desktop_run_kept new_manager ds p empty
  where
    empty : IsDesktop new_manager
    empty = record {
      stacked = record {
        webs_distinct = tt;
        natives_distinct = tt;
        webs_fit = omega arith;
        pages = tt;
        webs_within = tt;
        natives_within = tt;
        low = omega arith;
      };
      high = omega arith;
    }
