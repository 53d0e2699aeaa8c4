-- ===== src/Hostcall/Shown.antt =====
-- What the machine opens with `window.create` stands on the desktop (web/app/hostcall.ts).
use vinx.Prelude.{
  ℕ, ◌+◌, ◌≤◌, ◌≡◌, ◌⊎◌, refl, sym, ap, subst, ◌∙◌, Bool, true, false, not, ◌&&◌, Option, none,
  some, List, [], ◌∷◌, ◌++◌, arith, ltb, leb, leb→le, if_true, if_false, length, text_eq,
  text_eq_refl, Bool-cases, Option-cases, inl, inr,
}
use vinx.Prelude.Text.{codes}
use vinx.Prelude.Assoc.{text_key, lookup, has, lookup-insert}
use vinx.Rpc.Json.{Json, property, as_string}
use vinx.Prelude.Decimal.{decimal}
use vinx.Windows.{
  Out, WebBundle, web, WindowSpec, WindowState, Manager, max_windows, z_base, z_ceil,
}
use vinx.Windows.Stacking.{
  Slot, web_slot, native_slot, set_web, set_z, number_from, renumber, lift, raise, entry_of,
}
use vinx.Windows.Table.{placed_over, place, create}
use vinx.Hostcall.{unavailable, Result, ok, err, RefIo, pure, ◌>>=◌}
use vinx.Hostcall.Refs.{read_ref}
use vinx.Hostcall.Staged.{bind_ok}
use vinx.Hostcall.Calls.{
  Desk, parse_bundle, app_of, title_of, on_table, create_for, window_create, want_web, from_files,
  or_bundle,
}

abbrev pub spec_of : Option WindowState → Option WindowSpec
spec_of none = none
spec_of (some w) = some w.spec

-- What a window of the table is made of.
abbrev pub spec_at : List ℕ → List (List ℕ × WindowState) → Option WindowSpec
spec_at id ws = spec_of (lookup id ws)

spec_at-set_web :
    (id j : List ℕ) (z : ℕ) (ws : List (List ℕ × WindowState))
    → spec_at id (set_web j z ws) ≡ spec_at id ws
unfolding lookup set_web
spec_at-set_web id j z [] = refl
spec_at-set_web id j z ((k, w) ∷ ws) = elim (Bool-cases (text_eq k id)) [
  | inl here ↦ elim (Bool-cases (text_eq k j)) [
    | inl same ↦ rw (here, same) refl
    | inr other ↦ rw (here, other) refl
  ]
  | inr there ↦ rw there (spec_at-set_web id j z ws)
]

spec_at-set_z :
    (id : List ℕ) (s : Slot) (z : ℕ) (m : Manager)
    → spec_at id (set_z s z m).webs ≡ spec_at id m.webs
spec_at-set_z id (web_slot j) z m = spec_at-set_web id j z m.webs
spec_at-set_z id (native_slot j) z m = refl

spec_at-number_from :
    (id : List ℕ) (es : List (Slot × ℕ)) (z : ℕ) (m : Manager)
    → spec_at id (number_from es z m).webs ≡ spec_at id m.webs
unfolding number_from
spec_at-number_from id [] z m = refl
spec_at-number_from id ((s, old) ∷ es) z m =
    spec_at-number_from id es (z + 1) (set_z s z m) ∙ spec_at-set_z id s z m

spec_at-lift :
    (id : List ℕ) (s : Slot) (m : Manager) → spec_at id (lift s m).webs ≡ spec_at id m.webs
unfolding lift renumber
spec_at-lift id s m = elim (Bool-cases (ltb z_ceil (m.z_next + 1))) [
  | inl over ↦
      ap (λ (q : Manager). spec_at id q.webs) (if_true (ltb z_ceil (m.z_next + 1)) _ _ over)
      ∙ spec_at-number_from id _ z_base (record (set_z s m.z_next m) { z_next = m.z_next + 1 })
      ∙ spec_at-set_z id s m.z_next m
  | inr within ↦
      ap (λ (q : Manager). spec_at id q.webs) (if_false (ltb z_ceil (m.z_next + 1)) _ _ within)
      ∙ spec_at-set_z id s m.z_next m
]

-- Raising a window changes none but its place.
spec_at-raise : (id j : List ℕ) (m : Manager) → spec_at id (raise j m).1.webs ≡ spec_at id m.webs
unfolding raise
spec_at-raise id j m = elim (Option-cases (entry_of j m)) [
  | inl nothing ↦ rw nothing refl
  | inr ((s, z), there) ↦ rw there (spec_at-lift id s m)
]

placed_at :
    (spec : WindowSpec) (o : Option WindowState) (m : Manager)
    → spec_at spec.id (placed_over spec o m).webs ≡ some spec
placed_at spec none m = ap spec_of (
    lookup-insert spec.id spec.id (record { spec = spec; z = m.z_next; handle = none }) m.webs
    ∙ if_true _ _ _ (text_eq_refl spec.id))
placed_at spec (some w) m = ap spec_of (
    lookup-insert spec.id spec.id (record w { spec = spec }) m.webs
    ∙ if_true _ _ _ (text_eq_refl spec.id))

-- A window that is placed is there, or the table is full and stays as it is.
IsPlaced : WindowSpec → Manager → Bool × Manager → Type 0
IsPlaced spec m (true, m') = spec_at spec.id m'.webs ≡ some spec
IsPlaced spec m (false, m') = (m' ≡ m) × (max_windows ≤ length m.webs)

place-IsPlaced :
    (spec : WindowSpec) (m : Manager) → IsPlaced spec m ((place spec m).0, (place spec m).2)
unfolding place IsPlaced
place-IsPlaced spec m =
    elim (Bool-cases (not (has spec.id m.webs) && leb max_windows (length m.webs))) [
      | inl full ↦ rw full (refl, leb→le max_windows (length m.webs) (ground arith))
      | inr room ↦
          rw room (spec_at-raise spec.id spec.id _ ∙ placed_at spec (lookup spec.id m.webs) m)
    ]

-- A window goes by its app, or by a number for one without.
abbrev pub Named : Option (List ℕ) → ℕ → List ℕ → Type 0
Named (some app) n id = id ≡ app
Named none n id = id ≡ codes "web-" ++ decimal (n + 1)

module _ {S : Type 0} (has_shell : Bool) (app : Option (List ℕ)) (params : Json)
    (bundle : WebBundle) (d : Desk S) where
  abbrev pub spec_asked : List ℕ → WindowSpec
  spec_asked id = record {
    surface = web bundle;
    id = id;
    title = title_of (as_string (property (codes "title") params)) id;
    app_id = app;
  }

  -- The window is in the table under the id that is answered; or there is no app shell or no room on
  -- the desktop, and the table is as it was.
  abbrev pub IsOpened : Result (List ℕ) × Desk S → Type 0
  IsOpened (ok id, d') =
      (has_shell ≡ true)
      × Named app d.anon_windows id
      × (spec_at id d'.table.webs ≡ some (spec_asked id))
  IsOpened (err f, d') =
      (f ≡ unavailable)
      × (d'.table ≡ d.table)
      × ((has_shell ≡ false) ⊎ (max_windows ≤ length d.table.webs))

  placed-IsOpened :
      (id : List ℕ) (dn : Desk S) (r : Bool × List Out × Manager)
      → has_shell ≡ true
      → Named app d.anon_windows id
      → IsPlaced (spec_asked id) d.table (r.0, r.2)
      → IsOpened ((on_table (λ m. r) >>= λ _. pure id) dn)
  unfolding IsPlaced
  placed-IsOpened id dn (true, outs, m) shell named placed = (shell, named, placed)
  placed-IsOpened id dn (false, outs, m) shell named (same, full) = (refl, same, inr full)

create_for-IsOpened :
    {S : Type 0} (has_shell : Bool) (app : Option (List ℕ)) (params : Json) (bundle : WebBundle)
    (d : Desk S)
    → IsOpened has_shell app params bundle d (create_for has_shell app params bundle d)
unfolding create
create_for-IsOpened false none params bundle d = (refl, refl, inl refl)
create_for-IsOpened false (some app) params bundle d = (refl, refl, inl refl)
create_for-IsOpened true none params bundle d =
    let id = codes "web-" ++ decimal (d.anon_windows + 1) in
    placed-IsOpened true none params bundle d id (record d { anon_windows = d.anon_windows + 1 }) _
      refl refl (place-IsPlaced (spec_asked true none params bundle d id) d.table)
create_for-IsOpened true (some app) params bundle d =
    placed-IsOpened true (some app) params bundle d app d _ refl refl
      (place-IsPlaced (spec_asked true (some app) params bundle d app) d.table)

module _ {S : Type 0} (io : RefIo S) (parse : List ℕ → Option Json) (decode : List ℕ → List ℕ)
    (has_shell : Bool) where
  -- Where the desktop has its window table, the call asks for a web window, and its bundle can be
  -- read and is one, `window.create` answers with an id, the app's or a number's, under which the
  -- table then has a window of that bundle, title and app; or UNAVAILABLE, as the app shell is
  -- missing or six app windows show, and the table is as it was. Without the shell it is always that.
  pub window_create-IsOpened :
      (params : Json) (bytes : List ℕ) (bundle : WebBundle) (d : Desk S)
      → as_string (property (codes "surface") params) ≡ some (codes "web")
      → read_ref io (property (codes "bundleRef") params) d.files ≡ (ok bytes, d.files)
      → parse_bundle parse decode bytes ≡ ok bundle
      → IsOpened has_shell
          (app_of (as_string (property (codes "app") params)))
          params
          bundle
          d
          (window_create io parse decode true has_shell params d)
  unfolding window_create text_eq
  window_create-IsOpened params bytes bundle d is_web has_bytes is_bundle =
      subst
        (IsOpened has_shell (app_of (as_string (property (codes "app") params))) params bundle d)
        (sym runs)
        (create_for-IsOpened has_shell (app_of (as_string (property (codes "app") params))) params
          bundle d)
    where
      app : Option (List ℕ)
      app = app_of (as_string (property (codes "app") params))

      runs :
          window_create io parse decode true has_shell params d
          ≡ create_for has_shell
              (app_of (as_string (property (codes "app") params)))
              params
              bundle
              d
      runs =
          bind_ok (want_web (as_string (property (codes "surface") params)))
            (λ u. do
              read ← from_files (read_ref io (property (codes "bundleRef") params))
              made ← or_bundle (parse_bundle parse decode read)
              create_for has_shell app params made)
            d d tt (ap (λ o. want_web o d) is_web)
          ∙ bind_ok (from_files (read_ref io (property (codes "bundleRef") params)))
              (λ read. do
                made ← or_bundle (parse_bundle parse decode read)
                create_for has_shell app params made)
              d d bytes (ap (λ r. (r.0, record d { files = r.1 })) has_bytes)
          ∙ bind_ok (or_bundle (parse_bundle parse decode bytes))
              (λ made. create_for has_shell app params made) d d bundle (ap (λ r. (r, d)) is_bundle)
