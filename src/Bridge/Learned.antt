-- ===== src/Bridge/Learned.antt =====
-- What the switch does with what it has learned, and with what it has not (web/app/net-bridge.ts).
use vinx.Prelude.{
  ℕ, ◌+◌, ◌≤◌, ◌≡◌, ◌≢◌, refl, ap, ◌∙◌, Bool, true, false, Option, none, some, List, [], ◌∷◌, ◌++◌,
  inl, inr, arith, if◌then◌else◌, length, text_eq, text_eq_iff, text_eq_refl, Bool-cases, le→ltb,
}
use vinx.Prelude.Assoc.{text_key, lookup, insert, Distinct, lookup-insert}
use vinx.Bridge.{
  Room, Role, host, PeerLink, Out, to_lan, to_peer, to_host, ctl_to_peer, ctl_to_host, deliver_chat,
  close_peer, close_host_pc, emit, local_port,
}
use vinx.Bridge.Switch.{
  mac_at, is_multicast, link_open, send_to, flood_over, flood, post_lan, learn, owner_of,
  on_peer_frame, forward_local, on_lan_frame,
}

text_ne : (a b : List ℕ) → a ≢ b → text_eq a b ≡ false
text_ne a b ne = ground (arith, text_eq_iff a b)

-- What a frame from another port is looked up as, after a frame of `mac` came from `peer`.
owner-learned :
    (peer port heard frame : List ℕ) (r : Room)
    → is_multicast frame ≡ false
    → mac_at frame 0 ≡ mac_at heard 6
    → mac_at frame 6 ≢ mac_at heard 6
    → owner_of frame (learn frame port (learn heard peer r)) ≡ some peer
owner-learned peer port heard frame r single to other = rw single (
    lookup-insert (mac_at frame 6) (mac_at frame 0) port (insert (mac_at heard 6) peer r.macs)
    ∙ rw (
      to,
      text_ne (mac_at frame 6) (mac_at heard 6) other,
      lookup-insert (mac_at heard 6) (mac_at heard 6) peer r.macs,
      text_eq_refl (mac_at heard 6),
    ))

heard_so :
    (peer heard : List ℕ) (r : Room)
    → 14 ≤ length heard
    → (on_peer_frame peer heard r).1 ≡ learn heard peer r
unfolding on_peer_frame
heard_so peer heard r h = rw (le→ltb (length heard) 14 h)

module _ (c : ℕ) (cs heard frame : List ℕ) (r : Room) (heard_whole : 14 ≤ length heard)
    (whole : 14 ≤ length frame) (single : is_multicast frame ≡ false)
    (addressed : mac_at frame 0 ≡ mac_at heard 6) (elsewhere : mac_at frame 6 ≢ mac_at heard 6)
    (remote : (c ∷ cs) ≢ local_port) (ready : link_open (lookup (c ∷ cs) r.peers) ≡ true) where
  route_local-learned :
      (role : Role)
      → role ≡ host
      → (forward_local role frame (learn heard (c ∷ cs) r)).0 ≡ to_peer (c ∷ cs) frame ∷ []
  unfolding send_to
  route_local-learned host e = rw (
    owner-learned (c ∷ cs) local_port heard frame r single addressed elsewhere,
    text_ne (c ∷ cs) local_port remote,
    ready,
  )
  route_local-learned Role.member e = cc

  -- A host that has heard an address from a peer sends a frame of its own LAN for that address to
  -- that peer alone: where both frames are whole, the second is not for a group and comes from
  -- another address, and the peer is open, is not called "local" and has a name.
  pub on_lan_frame-learned :
      r.role ≡ host
      → (on_lan_frame frame (on_peer_frame (c ∷ cs) heard r).1).0 ≡ to_peer (c ∷ cs) frame ∷ []
  unfolding on_lan_frame
  on_lan_frame-learned e =
      rw (heard_so (c ∷ cs) heard r heard_whole, le→ltb (length frame) 14 whole)
        (route_local-learned r.role e)

  -- And so it does with a frame of another peer.
  pub on_peer_frame-learned :
      (other : List ℕ)
      → (c ∷ cs) ≢ other
      → (on_peer_frame other frame (on_peer_frame (c ∷ cs) heard r).1).0
        ≡ to_peer (c ∷ cs) frame ∷ []
  unfolding on_peer_frame send_to
  on_peer_frame-learned other ne = rw (
    le→ltb (length heard) 14 heard_whole,
    le→ltb (length frame) 14 whole,
    owner-learned (c ∷ cs) other heard frame r single addressed elsewhere,
    text_ne (c ∷ cs) local_port remote,
    text_ne (c ∷ cs) other ne,
    ready,
  )

-- How often a frame goes to a peer.
abbrev pub sends_to : List ℕ → List Out → ℕ
sends_to q [] = 0
sends_to q (to_peer p f ∷ outs) = (if text_eq p q then 1 else 0) + sends_to q outs
sends_to q (to_lan f ∷ outs) = sends_to q outs
sends_to q (to_host f ∷ outs) = sends_to q outs
sends_to q (ctl_to_peer p l ∷ outs) = sends_to q outs
sends_to q (ctl_to_host l ∷ outs) = sends_to q outs
sends_to q (deliver_chat m ∷ outs) = sends_to q outs
sends_to q (close_peer p ∷ outs) = sends_to q outs
sends_to q (close_host_pc ∷ outs) = sends_to q outs
sends_to q (emit ∷ outs) = sends_to q outs

sends_to-append :
    (q : List ℕ) (xs ys : List Out) → sends_to q (xs ++ ys) ≡ sends_to q xs + sends_to q ys
sends_to-append q [] ys = omega arith
sends_to-append q (to_peer p f ∷ xs) ys = omega (arith, sends_to-append q xs ys)
sends_to-append q (to_lan f ∷ xs) ys = sends_to-append q xs ys
sends_to-append q (to_host f ∷ xs) ys = sends_to-append q xs ys
sends_to-append q (ctl_to_peer p l ∷ xs) ys = sends_to-append q xs ys
sends_to-append q (ctl_to_host l ∷ xs) ys = sends_to-append q xs ys
sends_to-append q (deliver_chat m ∷ xs) ys = sends_to-append q xs ys
sends_to-append q (close_peer p ∷ xs) ys = sends_to-append q xs ys
sends_to-append q (close_host_pc ∷ xs) ys = sends_to-append q xs ys
sends_to-append q (emit ∷ xs) ys = sends_to-append q xs ys

sends_to-send_to :
    (q p frame : List ℕ) (r : Room)
    → link_open (lookup q r.peers) ≡ true
    → sends_to q (send_to p frame r) ≡ (if text_eq p q then 1 else 0)
unfolding send_to
sends_to-send_to q p frame r ready = elim (Bool-cases (text_eq p q)) [
  | inl same ↦ rw ((text_eq_iff p q).0 same, ready, text_eq_refl q) (omega arith)
  | inr other ↦ rw other (elsewhere (link_open (lookup p r.peers)) other)
]
  where
    elsewhere :
        (b : Bool) → text_eq p q ≡ false → sends_to q (if b then to_peer p frame ∷ [] else []) ≡ 0
    elsewhere true ne = rw ne (omega arith)
    elsewhere false ne = refl

abbrev found_once : Option PeerLink → ℕ
found_once none = 0
found_once (some link) = 1

module _ (q peer frame : List ℕ) (r : Room) (ready : link_open (lookup q r.peers) ≡ true)
    (other : peer ≢ q) where
  sends_to-flood_over :
      (peers : List (List ℕ × PeerLink))
      → Distinct peers
      → sends_to q (flood_over peers frame (some peer) r) ≡ found_once (lookup q peers)
  unfolding flood_over lookup
  sends_to-flood_over [] d = refl
  sends_to-flood_over ((id, link) ∷ rest) d = elim (Bool-cases (text_eq id peer)) [
    | inl skipped ↦
        let away : text_eq id q ≡ false =
          rw ((text_eq_iff id peer).0 skipped) (text_ne peer q other) in
        rw (skipped, away) (sends_to-flood_over rest d.1)
    | inr sent ↦ elim (Bool-cases (text_eq id q)) [
      | inl here ↦
          let gone : lookup q rest ≡ none = rw (← (text_eq_iff id q).0 here) d.0 in
          rw (sent, here)
            (omega (
              arith,
              sends_to-append q (send_to id frame r) (flood_over rest frame (some peer) r),
              sends_to-send_to q id frame r ready,
              sends_to-flood_over rest d.1,
              ap found_once gone,
              one here,
            ))
      | inr there ↦
          rw (sent, there)
            (omega (
              arith,
              sends_to-append q (send_to id frame r) (flood_over rest frame (some peer) r),
              sends_to-send_to q id frame r ready,
              sends_to-flood_over rest d.1,
              none_of there,
            ))
    ]
  ]
    where
      one : text_eq id q ≡ true → ◌≡◌ {A = ℕ} (if text_eq id q then 1 else 0) 1
      one e = rw e

      none_of : text_eq id q ≡ false → ◌≡◌ {A = ℕ} (if text_eq id q then 1 else 0) 0
      none_of e = rw e

found_once-open : (o : Option PeerLink) → link_open o ≡ true → found_once o ≡ 1
found_once-open none h = cc
found_once-open (some link) h = refl

sends_to-post_lan : (q frame : List ℕ) (r : Room) → sends_to q (post_lan frame r) ≡ 0
sends_to-post_lan q frame r = elim (Bool-cases r.bc) [
  | inl up ↦ rw up refl
  | inr down ↦ rw down refl
]

-- A whole frame for a group, from a peer, goes to every other open peer exactly once.
pub on_peer_frame-floods :
    (peer q frame : List ℕ) (r : Room)
    → Distinct r.peers
    → 14 ≤ length frame
    → is_multicast frame ≡ true
    → link_open (lookup q r.peers) ≡ true
    → peer ≢ q
    → sends_to q (on_peer_frame peer frame r).0 ≡ 1
unfolding on_peer_frame
on_peer_frame-floods peer q frame r d whole group ready other =
    let heard = learn frame peer r in
    rw (le→ltb (length frame) 14 whole, group)
      (sends_to-append q (post_lan frame heard) (flood frame (some peer) heard)
        ∙ rw
            (
              sends_to-post_lan q frame heard,
              sends_to-flood_over q peer frame heard ready other r.peers d,
            )
            (omega (arith, found_once-open (lookup q r.peers) ready)))
