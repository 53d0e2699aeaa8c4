-- ===== src/Bridge/Ports.antt =====
-- What a host knows of its ports, and what is left of it when it has ended (web/app/net-bridge.ts).
use vinx.Prelude.{ℕ, ◌≡◌, ◌⊎◌, Bool, true, false, ◌||◌, List, [], ◌∷◌, All}
use vinx.Prelude.Assoc.{text_key, has, Distinct}
use vinx.Bridge.{Room, RoomState, signalling, on, failed, closed, PeerLink, local_port}
use vinx.Bridge.Events.{
  HostEvent, lan_frame, peer_frame, peer_says, peer_gone, offer_comes, peer_lan_ready,
  peer_ctl_ready, started, manual_started, stopped,
}

-- This LAN, or a peer that is listed.
abbrev pub IsPort : List (List ℕ × PeerLink) → List ℕ → Type 0
IsPort peers port = (port ≡ local_port) ⊎ (has port peers ≡ true)

-- What was done to a host so far: whether it was stopped, and whether it was started by hand after
-- that.
pub record Past : Type 0 where
  pub was_over : Bool
  pub late : Bool

abbrev pub nothing_yet : Past
nothing_yet = record { was_over = false; late = false }

abbrev pub after : Past → HostEvent → Past
after past (lan_frame frame) = past
after past (peer_frame peer frame) = past
after past (peer_says peer line) = past
after past (peer_gone peer) = past
after past (offer_comes peer) = past
after past (peer_lan_ready peer ready) = past
after past (peer_ctl_ready peer ready) = past
after past started = past
after past manual_started = record past { late = past.late || past.was_over }
after past stopped = record past { was_over = true }

abbrev pub after_all : Past → List HostEvent → Past
after_all past [] = past
after_all past (e ∷ es) = after_all (after past e) es

-- While the bridge comes up it holds the lock of the origin, and while it is on unless it was started
-- by hand after a stop. It has ended only where it was stopped, and then holds nothing.
abbrev pub HoldsNothing : Past → Bool → Bool → Bool → List (List ℕ × PeerLink) → Type 0
HoldsNothing past lock bc signal peers =
    (past.was_over ≡ true) × (lock ≡ false) × (bc ≡ false) × (signal ≡ false) × (peers ≡ [])

abbrev pub Holds : Past → Bool → Bool → Bool → List (List ℕ × PeerLink) → RoomState → Type 0
Holds past lock bc signal peers signalling = lock ≡ true
Holds past lock bc signal peers on = (past.late ≡ true) ⊎ (lock ≡ true)
Holds past lock bc signal peers failed = HoldsNothing past lock bc signal peers
Holds past lock bc signal peers closed = HoldsNothing past lock bc signal peers

pub record IsWired (past : Past) (r : Room) : Type 0 where
  pub distinct : Distinct r.peers
  pub ports : All (λ (e : List ℕ × List ℕ). IsPort r.peers e.1) r.macs
  pub holds : Holds past r.lock r.bc r.signal r.peers r.state
