-- ===== src/Bridge/Members.antt =====
-- What a member holds while it joins, while it is in a room, and once it has ended
-- (web/app/net-bridge.ts).
use vinx.Prelude.{◌≡◌, ◌⊎◌, Bool, true, false, ◌||◌, List, [], ◌∷◌}
use vinx.Bridge.{Room, RoomState, signalling, on, failed, closed}
use vinx.Bridge.Events.{
  MemberEvent, relay_opened, invited, lan_opened, ctl_opened, link_failed, link_lost,
  member_stopped,
}
use vinx.Bridge.Ports.{Past}

-- Whether anything ended it so far, and whether its offer was made after that.
abbrev pub joined_after : Past → MemberEvent → Past
joined_after past relay_opened = record past { late = past.late || past.was_over }
joined_after past invited = record past { late = past.late || past.was_over }
joined_after past lan_opened = past
joined_after past ctl_opened = past
joined_after past link_failed = record past { was_over = true }
joined_after past link_lost = record past { was_over = true }
joined_after past member_stopped = record past { was_over = true }

abbrev pub joined_after_all : Past → List MemberEvent → Past
joined_after_all past [] = past
joined_after_all past (e ∷ es) = joined_after_all (joined_after past e) es

-- While it lives it holds the lock of the origin; it has ended only where something ended it, and
-- then holds nothing.
abbrev pub Keeps : Bool → Bool → Bool → Bool → Bool → RoomState → Type 0
Keeps over lock bc signal pc signalling = lock ≡ true
Keeps over lock bc signal pc on = lock ≡ true
Keeps over lock bc signal pc failed =
    (over ≡ true) × (lock ≡ false) × (bc ≡ false) × (signal ≡ false) × (pc ≡ false)
Keeps over lock bc signal pc closed =
    (over ≡ true) × (lock ≡ false) × (bc ≡ false) × (signal ≡ false) × (pc ≡ false)

-- So it is, unless its offer was made late.
abbrev pub IsJoined : Past → Room → Type 0
IsJoined past r = (past.late ≡ true) ⊎ Keeps past.was_over r.lock r.bc r.signal r.host_pc r.state

-- A room that was ended by one of the three ways, or was ended before.
abbrev Ended : Room → Type 0
Ended r = Keeps true r.lock r.bc r.signal r.host_pc r.state
