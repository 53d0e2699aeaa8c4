-- ===== src/Windows/Quiet.antt =====
-- Which callbacks hear of a window that is placed (web/app/window-manager.ts).
use vinx.Prelude.{
  ◌≤◌, ◌≡◌, ◌↔◌, inl, inr, Bool-cases, not, ◌&&◌, refl, false, none, [], arith, leb, length,
}
use vinx.Prelude.Assoc.{text_key, lookup, has}
use vinx.Windows.{WindowSpec, Manager, max_windows}
use vinx.Windows.Table.{place}

-- A window that opens is refused exactly where its id is not in the table and six app windows show;
-- then nothing is changed and nobody is called.
pub place_refused :
    (spec : WindowSpec) (m : Manager)
    → (((place spec m).0 ≡ false)
        ↔ ((lookup spec.id m.webs ≡ none) × (max_windows ≤ length m.webs)))
      × ((place spec m).0 ≡ false → place spec m ≡ (false, [], m))
unfolding place
place_refused spec m =
    elim (Bool-cases (not (has spec.id m.webs) && leb max_windows (length m.webs))) [
      | inl full ↦ rw full ((λ e. ground (arith), λ e. refl), λ e. refl)
      | inr room ↦ rw room ((λ e. absurd (cc), λ e. absurd (ground (arith))), λ e. absurd (cc))
    ]
