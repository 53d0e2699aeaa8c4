-- ===== src/Bridge/Life.antt =====
-- How a bridge comes up, fails and goes (web/app/net-bridge.ts). `openSignal`, the relays and the
-- making of an offer or an answer are asynchronous: what follows each is an operation of its own.
use vinx.Prelude.{ℕ, Bool, true, false, Option, none, some, List, [], ◌∷◌, ◌++◌, if◌then◌else◌}
use vinx.Prelude.Assoc.{text_key, lookup, insert, has}
use vinx.Bridge.{
  Room, RoomState, signalling, on, failed, closed, PeerLink, Out, close_peer, close_host_pc,
  ctl_to_host, hello, emit,
}
use vinx.Bridge.Control.{update_roster, is_on}

unfoldable pub open_lan : Room → Room
open_lan r = record r { bc = true }

-- The relay's channel is there.
unfoldable pub signal_opened : Room → Room
signal_opened r = record r { signal = true }

-- The end of `startHost` and of `startManualHost`.
unfoldable pub host_started : Room → List Out × Room
host_started r = update_roster (record (open_lan r) { state = on })

abbrev pub no_link : PeerLink
no_link = record { lan = none; ctl = none; name = []; ip = [] }

-- A joiner's offer is taken, once; whether it was.
unfoldable pub accept : List ℕ → Room → Room × Bool
accept peer r =
    if has peer r.peers
    then (r, false)
    else (record r { peers = insert peer no_link r.peers }, true)

-- A data channel of a peer is there, or its `readyState` changes.
abbrev pub with_link : List ℕ → (PeerLink → PeerLink) → Option PeerLink → Room → Room
with_link peer f none r = r
with_link peer f (some link) r = record r { peers = insert peer (f link) r.peers }

unfoldable pub set_peer_lan : List ℕ → Bool → Room → Room
set_peer_lan peer ready r =
    with_link peer (λ link. record link { lan = some ready }) (lookup peer r.peers) r

unfoldable pub set_peer_ctl : List ℕ → Bool → Room → Room
set_peer_ctl peer ready r =
    with_link peer (λ link. record link { ctl = some ready }) (lookup peer r.peers) r

unfoldable pub close_peers : List (List ℕ × PeerLink) → List Out
close_peers [] = []
close_peers ((id, link) ∷ rest) = close_peer id ∷ close_peers rest

unfoldable pub teardown : Room → List Out × Room
teardown r = (
  close_peers r.peers ++ (if r.host_pc then close_host_pc ∷ [] else []),
  record r { bc = false; signal = false; peers = []; macs = []; host_pc = false; lock = false },
)

abbrev pub ended_as : RoomState → List ℕ → Room → List Out × Room
ended_as state error r =
    let (outs, r') = teardown (record r { state = state; error = error }) in (outs ++ emit ∷ [], r')

abbrev pub fail_from : RoomState → List ℕ → Room → List Out × Room
fail_from failed msg r = ([], r)
fail_from closed msg r = ([], r)
fail_from on msg r = ended_as failed msg r
fail_from signalling msg r = ended_as failed msg r

unfoldable pub fail : List ℕ → Room → List Out × Room
fail msg r = fail_from r.state msg r

abbrev pub close_from : RoomState → Room → List Out × Room
close_from closed r = ([], r)
close_from on r = ended_as closed r.error r
close_from signalling r = ended_as closed r.error r
close_from failed r = ended_as closed r.error r

unfoldable pub close : Room → List Out × Room
close r = close_from r.state r

unfoldable pub stop : Room → List Out × Room
stop r = let (outs, r') = close r in (outs ++ emit ∷ [], r')

-- `memberOffer` makes the connection to the host and its two channels.
unfoldable pub member_offer : Room → Room
member_offer r = record r { host_pc = true; host_lan = some false; host_ctl = some false }

-- The member's LAN channel opens, its control channel opens, and either may close.
unfoldable pub member_lan_opens : Room → List Out × Room
member_lan_opens r =
    (emit ∷ [], record (open_lan r) { state = on; signal = false; host_lan = some true })

unfoldable pub member_ctl_opens : Room → List Out × Room
member_ctl_opens r =
    (ctl_to_host (hello r.self_name r.self_ip) ∷ [], record r { host_ctl = some true })

-- The LAN channel closed, or the connection is disconnected or closed.
unfoldable pub member_gone : Room → List Out × Room
member_gone r = if is_on r.state then close r else ([], r)

-- The `readyState` of the channels to the host changes.
unfoldable pub set_host_channels : Bool → Bool → Room → Room
set_host_channels lan ctl r = record r { host_lan = some lan; host_ctl = some ctl }
