-- ===== src/Bridge/Control.antt =====
-- The control channels: roster and chat, on both sides (web/app/net-bridge.ts).
-- A field of a line is what `String(...)` makes of it. A line that is no object of a known kind
-- changes nothing.
use vinx.Prelude.{
  ℕ, Bool, true, false, not, ◌&&◌, Option, none, some, List, [], ◌∷◌, ◌++◌, if◌then◌else◌, take,
  text_eq,
}
use vinx.Prelude.Assoc.{text_key, lookup, insert, erase}
use vinx.Prelude.Text.{codes, trim, is_empty, or_else}
use vinx.Bridge.{
  Room, Role, host, member, RoomState, signalling, on, failed, closed, Member, PeerLink, Line,
  hello, roster, chat, Out, ctl_to_peer, ctl_to_host, deliver_chat, close_peer, emit, is_open,
}

abbrev pub someone : List ℕ
someone = codes "someone"

-- Whether a `to` names anyone: a missing one and an empty one do not.
abbrev pub is_direct : Option (List ℕ) → Bool
is_direct none = false
is_direct (some to) = not (is_empty to)

-- The members that have said hello over an open channel.
unfoldable pub named_peers : List (List ℕ × PeerLink) → List Member
named_peers [] = []
named_peers ((id, link) ∷ rest) =
    let more = named_peers rest in
    if is_open link.ctl && not (is_empty link.name)
    then record { name = link.name; ip = link.ip; is_host = false } ∷ more
    else more

unfoldable pub send_all : List (List ℕ × PeerLink) → Line → List Out
send_all [] line = []
send_all ((id, link) ∷ rest) line =
    let more = send_all rest line in if is_open link.ctl then ctl_to_peer id line ∷ more else more

unfoldable pub update_roster : Room → List Out × Room
update_roster r =
    let members =
      record { name = r.self_name; ip = r.self_ip; is_host = true } ∷ named_peers r.peers in
    (send_all r.peers (roster members) ++ emit ∷ [], record r { members = members })

-- The addresses behind a port are forgotten.
unfoldable pub forget_port : List ℕ → List (List ℕ × List ℕ) → List (List ℕ × List ℕ)
forget_port port [] = []
forget_port port ((mac, owner) ∷ rest) =
    let more = forget_port port rest in if text_eq owner port then more else (mac, owner) ∷ more

abbrev pub drop_found : List ℕ → Option PeerLink → Room → List Out × Room
drop_found peer none r = ([], r)
drop_found peer (some link) r =
    let (outs, r') =
      update_roster (record r { peers = erase peer r.peers; macs = forget_port peer r.macs }) in
    (close_peer peer ∷ outs, r')

-- A peer's connection or its LAN channel is gone.
unfoldable pub drop_peer : List ℕ → Room → List Out × Room
drop_peer peer r = drop_found peer (lookup peer r.peers) r

-- Whether a peer is in the audience of a line.
abbrev pub hears : Option (List ℕ) → PeerLink → Bool
hears to link =
    if is_direct to then elim to [ none ↦ true | some name ↦ text_eq link.name name ] else true

unfoldable pub fanout_over :
    List (List ℕ × PeerLink) → Line → Option (List ℕ) → Option (List ℕ) → List Out
fanout_over [] line to except = []
fanout_over ((id, link) ∷ rest) line to except =
    let more = fanout_over rest line to except in
    if elim except [ none ↦ false | some peer ↦ text_eq id peer ]
    then more
    else if not (hears to link)
    then more
    else if is_open link.ctl
    then ctl_to_peer id line ∷ more
    else more

abbrev pub fanout_chat : List ℕ → List ℕ → Option (List ℕ) → Option (List ℕ) → Room → List Out
fanout_chat from text to except r = fanout_over r.peers (chat from text to) to except

-- A text is cut, not refused.
abbrev pub cut_to : Option (List ℕ) → Option (List ℕ)
cut_to none = none
cut_to (some to) = if is_empty to then none else some (take 32 to)

abbrev pub is_for : List ℕ → Option (List ℕ) → Bool
is_for self to =
    if is_direct to then elim to [ none ↦ true | some name ↦ text_eq name self ] else true

-- What a peer said, under the name that it gave with its hello.
abbrev pub peer_chat : List ℕ → List ℕ → List ℕ → Option (List ℕ) → Room → List Out
peer_chat peer name text to r =
    if is_empty (trim (take 512 text))
    then []
    else fanout_chat (or_else name someone) (take 512 text) (cut_to to) (some peer) r
      ++ (if is_for r.self_name (cut_to to)
          then deliver_chat (record {
            from = or_else name someone;
            text = take 512 text;
            direct = is_direct (cut_to to);
            is_self = false;
          })
            ∷ []
          else [])

abbrev pub peer_line : List ℕ → Line → PeerLink → Room → List Out × Room
peer_line peer (hello name ip) link r = update_roster (record r {
  peers =
      insert peer (record link { name = or_else (take 32 name) someone; ip = take 15 ip }) r.peers;
})
peer_line peer (chat from text to) link r = (peer_chat peer link.name text to r, r)
peer_line peer (roster members) link r = ([], r)

abbrev pub peer_line_found : List ℕ → Line → Option PeerLink → Room → List Out × Room
peer_line_found peer line none r = ([], r)
peer_line_found peer line (some link) r = peer_line peer line link r

-- The host hears a line of a peer, whose connection is open while it is listed.
unfoldable pub on_peer_line : List ℕ → Line → Room → List Out × Room
on_peer_line peer line r = peer_line_found peer line (lookup peer r.peers) r

abbrev pub host_chat : List ℕ → List ℕ → Option (List ℕ) → List Out
host_chat from text to =
    if is_empty (trim (take 512 text))
    then []
    else deliver_chat (record {
      from = or_else (take 32 from) someone;
      text = take 512 text;
      direct = is_direct to;
      is_self = false;
    })
      ∷ []

-- A member hears a line of the host.
unfoldable pub on_host_line : Line → Room → List Out × Room
on_host_line (roster members) r = (emit ∷ [], record r { members = members })
on_host_line (chat from text to) r = (host_chat from text to, r)
on_host_line (hello name ip) r = ([], r)

abbrev pub is_on : RoomState → Bool
is_on on = true
is_on signalling = false
is_on failed = false
is_on closed = false

abbrev pub say_from : Role → List ℕ → List ℕ → Option (List ℕ) → Room → List Out
say_from host from text to r = fanout_chat from text to none r
say_from member from text to r =
    if is_open r.host_ctl then ctl_to_host (chat from text to) ∷ [] else []

-- The page's own words, sent and floated on its own screen.
unfoldable pub say : List ℕ → Option (List ℕ) → Room → List Out
say text to r =
    if not (is_on r.state)
    then []
    else if is_empty (trim (take 512 text))
    then []
    else say_from r.role r.self_name (trim (take 512 text)) (cut_to to) r
      ++ deliver_chat (record {
        from = r.self_name;
        text = trim (take 512 text);
        direct = is_direct (cut_to to);
        is_self = true;
      })
        ∷ []
