-- ===== src/Bridge/Switch.antt =====
-- Frames of the LAN and of the peers: the learning switch of a host (web/app/net-bridge.ts).
use vinx.Prelude.{
  ℕ, ◌+◌, ◌%◌, Bool, false, Option, none, some, List, [], ◌∷◌, ◌++◌, ltb, ◌==◌, if◌then◌else◌,
  length, get_or, text_eq,
}
use vinx.Prelude.Assoc.{text_key, lookup, insert}
use vinx.Wire.{slice}
use vinx.Bridge.{
  Room, Role, host, member, PeerLink, Out, to_lan, to_peer, to_host, local_port, is_open,
}

-- The six bytes of an address, as a key.
abbrev pub mac_at : List ℕ → ℕ → List ℕ
mac_at frame off = slice frame off (off + 6)

-- The group bit, `frame[0] & 1`.
abbrev pub is_multicast : List ℕ → Bool
is_multicast frame = get_or frame 0 0 % 2 == 1

abbrev pub link_open : Option PeerLink → Bool
link_open none = false
link_open (some link) = is_open link.lan

unfoldable pub send_to : List ℕ → List ℕ → Room → List Out
send_to peer frame r = if link_open (lookup peer r.peers) then to_peer peer frame ∷ [] else []

unfoldable pub flood_over : List (List ℕ × PeerLink) → List ℕ → Option (List ℕ) → Room → List Out
flood_over [] frame except r = []
flood_over ((id, link) ∷ rest) frame except r =
    let others = flood_over rest frame except r in
    if elim except [ none ↦ false | some peer ↦ text_eq id peer ]
    then others
    else send_to id frame r ++ others

-- Every peer but `except`.
abbrev pub flood : List ℕ → Option (List ℕ) → Room → List Out
flood frame except r = flood_over r.peers frame except r

-- `bc?.postMessage(frame)`.
abbrev pub post_lan : List ℕ → Room → List Out
post_lan frame r = if r.bc then to_lan frame ∷ [] else []

abbrev pub learn : List ℕ → List ℕ → Room → Room
learn frame port r = record r { macs = insert (mac_at frame 6) port r.macs }

-- The port that a frame is for, where it has been learned.
abbrev pub owner_of : List ℕ → Room → Option (List ℕ)
owner_of frame r = if is_multicast frame then none else lookup (mac_at frame 0) r.macs

-- Where a frame from a peer goes: to another peer, to this LAN, or everywhere else. The port is a
-- text, and an empty one counts as none.
abbrev pub route_peer : List ℕ → List ℕ → Option (List ℕ) → Room → List Out
route_peer peer frame none r = post_lan frame r ++ flood frame (some peer) r
route_peer peer frame (some []) r = post_lan frame r ++ flood frame (some peer) r
route_peer peer frame (some (c ∷ cs)) r =
    if text_eq (c ∷ cs) local_port
    then post_lan frame r
    else if text_eq (c ∷ cs) peer
    then post_lan frame r ++ flood frame (some peer) r
    else send_to (c ∷ cs) frame r

-- A frame comes from a peer.
unfoldable pub on_peer_frame : List ℕ → List ℕ → Room → List Out × Room
on_peer_frame peer frame r =
    if ltb (length frame) 14
    then ([], r)
    else let r' = learn frame peer r in (route_peer peer frame (owner_of frame r') r', r')

abbrev pub route_local : List ℕ → Option (List ℕ) → Room → List Out
route_local frame none r = flood frame none r
route_local frame (some []) r = flood frame none r
route_local frame (some (c ∷ cs)) r =
    if text_eq (c ∷ cs) local_port then flood frame none r else send_to (c ∷ cs) frame r

abbrev pub forward_local : Role → List ℕ → Room → List Out × Room
forward_local member frame r = (if is_open r.host_lan then to_host frame ∷ [] else [], r)
forward_local host frame r =
    let r' = learn frame local_port r in (route_local frame (owner_of frame r') r', r')

-- A frame comes from this LAN, while its channel is open.
unfoldable pub on_lan_frame : List ℕ → Room → List Out × Room
on_lan_frame frame r = if ltb (length frame) 14 then ([], r) else forward_local r.role frame r

-- A member hears a frame from the host.
unfoldable pub on_host_frame : List ℕ → Room → List Out
on_host_frame frame r = post_lan frame r
