-- ===== src/Windows/Desktop.antt =====
-- Every deed on a desktop keeps its table well formed (web/app/window-manager.ts).
use vinx.Prelude.{
  ℕ, ◌≤◌, ◌<◌, ◌≡◌, refl, Option, none, some, List, [], ◌∷◌, arith, text_eq, length, Bool-cases,
  Option-cases, inl, inr, All,
}
use vinx.Prelude.Assoc.{
  text_key, lookup, insert, erase, Distinct, insert-Distinct, erase-Distinct, length-insert,
  length-erase, insert-All, erase-All, lookup-All,
}
use vinx.Windows.{WindowState, Manager, z_base}
use vinx.Windows.Table.{
  set_handle, register_native, unregister_native, without_streams, marked, mark_over, is_tty,
  fronts,
}
use vinx.Windows.Numbers.{names}
use vinx.Windows.Reachable.{WebsWithin, NativesWithin, IsPage, IsDesktop}

-- The app windows written anew, where the natives and the next number stay.
pub with_webs :
    (m : Manager) (ws : List (List ℕ × WindowState))
    → IsDesktop m
    → Distinct ws
    → length ws ≤ length m.webs
    → WebsWithin m.z_next ws
    → IsDesktop (record m { webs = ws })
with_webs m ws h d le w = record {
  stacked = record {
    webs_distinct = d;
    natives_distinct = h.stacked.natives_distinct;
    webs_fit = omega (arith, h.stacked.webs_fit);
    pages = h.stacked.pages;
    webs_within = w;
    natives_within = h.stacked.natives_within;
    low = h.stacked.low;
  };
  high = h.high;
}

pub length-insert_found :
    (id : List ℕ) (w v : WindowState) (ws : List (List ℕ × WindowState))
    → lookup id ws ≡ some w
    → length (insert id v ws) ≡ length ws
length-insert_found id w v ws e = ground (arith, length-insert id v ws)

mark_over-lookup :
    (app : List ℕ) (code : Option ℕ) (j : List ℕ) (ws : List (List ℕ × WindowState))
    → lookup j ws ≡ none
    → lookup j (mark_over app code ws) ≡ none
unfolding mark_over lookup
mark_over-lookup app code j [] h = refl
mark_over-lookup app code j ((k, w) ∷ ws) h = ground (arith, mark_over-lookup app code j ws)

pub mark_over_kept :
    (app : List ℕ) (code : Option ℕ) (top : ℕ) (ws : List (List ℕ × WindowState))
    → Distinct ws
    → WebsWithin top ws
    → Distinct (mark_over app code ws)
      × (length (mark_over app code ws) ≤ length ws)
      × WebsWithin top (mark_over app code ws)
unfolding mark_over
mark_over_kept app code top [] d h = (tt, omega arith, tt)
mark_over_kept app code top ((k, w) ∷ ws) d h =
    let r = mark_over_kept app code top ws d.1 h.1 in
    ((mark_over-lookup app code k ws d.0, r.0), omega (arith, r.1), (same, r.2))
  where
    same : (z_base ≤ (marked app code w).z) × ((marked app code w).z < top)
    same = elim (Bool-cases (fronts app w.spec)) [
      | inl yes_it ↦ rw yes_it h.0
      | inr no_it ↦ rw no_it h.0
    ]

without_streams-lookup :
    (j : List ℕ) (ws : List (List ℕ × WindowState))
    → lookup j ws ≡ none
    → lookup j (without_streams ws) ≡ none
unfolding without_streams lookup
without_streams-lookup j [] h = refl
without_streams-lookup j ((k, w) ∷ ws) h = ground (arith, without_streams-lookup j ws)

pub without_streams_kept :
    (top : ℕ) (ws : List (List ℕ × WindowState))
    → Distinct ws
    → WebsWithin top ws
    → Distinct (without_streams ws)
      × (length (without_streams ws) ≤ length ws)
      × WebsWithin top (without_streams ws)
unfolding without_streams
without_streams_kept top [] d h = (tt, omega arith, tt)
without_streams_kept top ((k, w) ∷ ws) d h =
    let r = without_streams_kept top ws d.1 h.1 in
    elim (Bool-cases (is_tty w.spec.surface)) [
      | inl gone ↦ rw gone (r.0, omega (arith, r.1), r.2)
      | inr stays ↦
          rw stays ((without_streams-lookup k ws d.0, r.0), omega (arith, r.1), (h.0, r.2))
    ]

pub erase_web :
    (id : List ℕ) (m : Manager) → IsDesktop m → IsDesktop (record m { webs = erase id m.webs })
erase_web id m h =
    with_webs m (erase id m.webs) h (erase-Distinct id m.webs h.stacked.webs_distinct)
      (length-erase id m.webs)
      (erase-All (λ j w. (z_base ≤ w.z) × (w.z < m.z_next)) id m.webs h.stacked.webs_within)

pub set_handle-IsDesktop :
    (id : List ℕ) (handle : Option ℕ) (m : Manager)
    → IsDesktop m
    → IsDesktop (set_handle id handle m)
unfolding set_handle
set_handle-IsDesktop id handle m h = elim (Option-cases (lookup id m.webs)) [
  | inl nothing ↦ rw nothing h
  | inr (w, there) ↦ rw there (
      with_webs m (insert id (record w { handle = handle }) m.webs) h
        (insert-Distinct id (record w { handle = handle }) m.webs h.stacked.webs_distinct)
        (omega (arith, length-insert_found id w (record w { handle = handle }) m.webs there))
        (insert-All (λ w. (z_base ≤ w.z) × (w.z < m.z_next)) id (record w { handle = handle })
          m.webs h.stacked.webs_within
          (lookup-All (λ w. (z_base ≤ w.z) × (w.z < m.z_next)) id w m.webs h.stacked.webs_within
            there)))
]

names-insert :
    (id : List ℕ) (z : ℕ) (ns : List (List ℕ × ℕ))
    → IsPage id
    → All IsPage (names ns)
    → All IsPage (names (insert id z ns))
unfolding insert
names-insert id z [] p h = (p, tt)
names-insert id z ((j, y) ∷ ns) p h = elim (Bool-cases (text_eq j id)) [
  | inl here ↦ rw here h
  | inr there ↦ rw there (h.0, names-insert id z ns p h.1)
]

names-erase :
    (id : List ℕ) (ns : List (List ℕ × ℕ))
    → All IsPage (names ns)
    → All IsPage (names (erase id ns))
unfolding erase
names-erase id [] h = tt
names-erase id ((j, y) ∷ ns) h = elim (Bool-cases (text_eq j id)) [
  | inl here ↦ rw here (names-erase id ns h.1)
  | inr there ↦ rw there (h.0, names-erase id ns h.1)
]

with_natives :
    (m : Manager) (ns : List (List ℕ × ℕ))
    → IsDesktop m
    → Distinct ns
    → All IsPage (names ns)
    → NativesWithin m.z_next ns
    → IsDesktop (record m { natives = ns })
with_natives m ns h d p w = record {
  stacked = record {
    webs_distinct = h.stacked.webs_distinct;
    natives_distinct = d;
    webs_fit = h.stacked.webs_fit;
    pages = p;
    webs_within = h.stacked.webs_within;
    natives_within = w;
    low = h.stacked.low;
  };
  high = h.high;
}

pub register_native-IsDesktop :
    (id : List ℕ) (m : Manager) → IsPage id → IsDesktop m → IsDesktop (register_native id m).1
unfolding register_native
register_native-IsDesktop id m p h =
    with_natives m (insert id z_base m.natives) h
      (insert-Distinct id z_base m.natives h.stacked.natives_distinct)
      (names-insert id z_base m.natives p h.stacked.pages)
      (insert-All (λ z. (z_base ≤ z) × (z < m.z_next)) id z_base m.natives h.stacked.natives_within
        (omega arith, h.stacked.low))

pub unregister_native-IsDesktop :
    (id : List ℕ) (m : Manager) → IsDesktop m → IsDesktop (unregister_native id m).1
unfolding unregister_native
unregister_native-IsDesktop id m h =
    with_natives m (erase id m.natives) h (erase-Distinct id m.natives h.stacked.natives_distinct)
      (names-erase id m.natives h.stacked.pages)
      (erase-All (λ j z. (z_base ≤ z) × (z < m.z_next)) id m.natives h.stacked.natives_within)
