-- ===== src/Bridge.antt =====
-- class RoomBridgeImpl of web/app/net-bridge.ts: a LAN of this browser joined to others'. A member
-- has one connection, to the host; the host is a learning switch between its LAN and its members.
-- The peer connections, the BroadcastChannel of the LAN and the signalling relay are the browser's:
-- what the bridge asks of them is an `Out`, in order, and what they do is an operation called.
pub mod Switch
pub mod Control
pub mod Life
pub mod Events
pub mod Ports
pub mod Members
pub mod Forward
pub mod Learned
pub mod Speech
use vinx.Prelude.{ℕ, Bool, true, false, Option, none, some, List, []}
use vinx.Prelude.Text.{codes}

pub data Role : Type 0 where
  host member : Role

pub data RoomState : Type 0 where
  signalling on failed closed : RoomState

pub record Member : Type 0 where
  pub name : List ℕ
  pub ip : List ℕ
  pub is_host : Bool

-- A data channel that is there, by whether its `readyState` is 'open'.
pub record PeerLink : Type 0 where
  pub lan : Option Bool
  pub ctl : Option Bool
  pub name : List ℕ
  pub ip : List ℕ

-- A line of the control channel, as an object; a `to` that is absent or empty addresses everyone.
pub data Line : Type 0 where
  hello : List ℕ → List ℕ → Line
  roster : List Member → Line
  chat : List ℕ → List ℕ → Option (List ℕ) → Line

pub record ChatMessage : Type 0 where
  pub from : List ℕ
  pub text : List ℕ
  pub direct : Bool
  pub is_self : Bool

pub data Out : Type 0 where
  -- `bc.postMessage(frame)`
  to_lan : List ℕ → Out
  -- `lan.send(frame)` on a peer's channel, and on that of the host
  to_peer : List ℕ → List ℕ → Out
  to_host : List ℕ → Out
  -- `ctl.send(line)`
  ctl_to_peer : List ℕ → Line → Out
  ctl_to_host : Line → Out
  deliver_chat : ChatMessage → Out
  close_peer : List ℕ → Out
  close_host_pc : Out
  -- the listeners and the page's own are called
  emit : Out

pub record Room : Type 0 where
  pub role : Role
  pub self_name : List ℕ
  pub self_ip : List ℕ
  pub state : RoomState
  pub error : List ℕ
  pub members : List Member
  -- whether the LAN's channel is open, and the relay's
  pub bc : Bool
  pub signal : Bool
  pub peers : List (List ℕ × PeerLink)
  -- the port that each learned address sits behind: a peer, or `local_port`
  pub macs : List (List ℕ × List ℕ)
  pub host_pc : Bool
  pub host_lan : Option Bool
  pub host_ctl : Option Bool
  -- whether this bridge holds the lock of the origin
  pub lock : Bool

-- The state that the constructor gives, once the lock is held.
abbrev pub new_room : Role → List ℕ → List ℕ → Room
new_room role name ip = record {
  role = role;
  self_name = name;
  self_ip = ip;
  state = signalling;
  error = [];
  members = [];
  bc = false;
  signal = false;
  peers = [];
  macs = [];
  host_pc = false;
  host_lan = none;
  host_ctl = none;
  lock = true;
}

-- 'local', the port of this LAN.
abbrev pub local_port : List ℕ
local_port = codes "local"

-- `channel?.readyState === 'open'`.
abbrev pub is_open : Option Bool → Bool
is_open none = false
is_open (some ready) = ready
