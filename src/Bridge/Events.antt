-- ===== src/Bridge/Events.antt =====
-- What happens to a host and to a member: frames, lines, peers, channels, the relay, and the page's
-- own calls (web/app/net-bridge.ts). The browser fires nothing on a channel that is closed. A host of
-- the relay starts once: `hostRoom` hands the bridge out, for anyone to stop, after `startHost` has
-- ended. `manualAnswer` hands its bridge out before `startManualHost`, which may thus end after a stop.
use vinx.Prelude.{ℕ, Bool, true, false, ◌||◌, List, [], ◌∷◌, if◌then◌else◌}
use vinx.Prelude.Assoc.{text_key, has}
use vinx.Bridge.{Room, RoomState, signalling, on, failed, closed, Line}
use vinx.Bridge.Switch.{on_lan_frame, on_peer_frame}
use vinx.Bridge.Control.{drop_peer, on_peer_line}
use vinx.Bridge.Life.{
  signal_opened, host_started, accept, set_peer_lan, set_peer_ctl, stop, fail, member_offer,
  member_lan_opens, member_ctl_opens, member_gone,
}

pub data HostEvent : Type 0 where
  lan_frame : List ℕ → HostEvent
  peer_frame : List ℕ → List ℕ → HostEvent
  peer_says : List ℕ → Line → HostEvent
  peer_gone : List ℕ → HostEvent
  offer_comes : List ℕ → HostEvent
  peer_lan_ready : List ℕ → Bool → HostEvent
  peer_ctl_ready : List ℕ → Bool → HostEvent
  started : HostEvent
  manual_started : HostEvent
  stopped : HostEvent

abbrev pub is_signalling : RoomState → Bool
is_signalling signalling = true
is_signalling on = false
is_signalling failed = false
is_signalling closed = false

unfoldable pub host_step : Room → HostEvent → Room
host_step r (lan_frame frame) = if r.bc then (on_lan_frame frame r).1 else r
host_step r (peer_frame peer frame) = if has peer r.peers then (on_peer_frame peer frame r).1 else r
host_step r (peer_says peer line) = (on_peer_line peer line r).1
host_step r (peer_gone peer) = (drop_peer peer r).1
-- an offer comes from the relay, or by hand before the bridge is up
host_step r (offer_comes peer) = if r.signal || is_signalling r.state then (accept peer r).0 else r
host_step r (peer_lan_ready peer ready) = set_peer_lan peer ready r
host_step r (peer_ctl_ready peer ready) = set_peer_ctl peer ready r
host_step r started = if is_signalling r.state then (host_started (signal_opened r)).1 else r
-- what follows the await of `startManualHost` asks for no state
host_step r manual_started = (host_started r).1
host_step r stopped = (stop r).1

unfoldable pub host_run : Room → List HostEvent → Room
host_run r [] = r
host_run r (e ∷ es) = host_run (host_step r e) es

-- What happens to a member. Its connection fires nothing before it is made and once it was closed.
-- The words of a failure are left out.
pub data MemberEvent : Type 0 where
  relay_opened : MemberEvent
  invited : MemberEvent
  lan_opened : MemberEvent
  ctl_opened : MemberEvent
  link_failed : MemberEvent
  link_lost : MemberEvent
  member_stopped : MemberEvent

unfoldable pub member_step : Room → MemberEvent → Room
-- what follows the first await of `startMember` asks for no state; by hand there is no relay
member_step r relay_opened = member_offer (signal_opened r)
member_step r invited = member_offer r
member_step r lan_opened = if r.host_pc then (member_lan_opens r).1 else r
member_step r ctl_opened = if r.host_pc then (member_ctl_opens r).1 else r
member_step r link_failed = if r.host_pc then (fail [] r).1 else r
member_step r link_lost = if r.host_pc then (member_gone r).1 else r
member_step r member_stopped = (stop r).1

unfoldable pub member_run : Room → List MemberEvent → Room
member_run r [] = r
member_run r (e ∷ es) = member_run (member_step r e) es
