-- ===== src/Bridge/Forward.antt =====
-- Where the bridge sends the frames that it hears (web/app/net-bridge.ts).
use vinx.Prelude.{
  ℕ, ◌≡◌, ◌≢◌, refl, Bool, true, false, Option, none, some, List, [], ◌∷◌, ◌++◌, inl, inr, arith,
  ltb, length, text_eq, text_eq_iff, All, All-append, Bool-cases,
}
use vinx.Prelude.Assoc.{text_key, lookup}
use vinx.Bridge.{
  Room, Role, host, member, PeerLink, Out, to_lan, to_peer, to_host, ctl_to_peer, ctl_to_host,
  deliver_chat, close_peer, close_host_pc, emit, local_port,
}
use vinx.Bridge.Switch.{
  link_open, send_to, flood_over, flood, post_lan, learn, owner_of, route_peer, on_peer_frame,
  route_local, forward_local, on_lan_frame,
}

-- The frame itself, to this LAN while it is open or to an open peer other than `except`.
abbrev pub ForwardsTo :
    Bool → Option (List ℕ) → List ℕ → Bool → List (List ℕ × PeerLink) → Out → Type 0
ForwardsTo lan except frame bc peers (to_lan f) = (f ≡ frame) × (lan ≡ true) × (bc ≡ true)
ForwardsTo lan except frame bc peers (to_peer q f) =
    (f ≡ frame) × (link_open (lookup q peers) ≡ true) × (except ≢ some q)
ForwardsTo lan except frame bc peers (to_host f) = ⊥
ForwardsTo lan except frame bc peers (ctl_to_peer q l) = ⊥
ForwardsTo lan except frame bc peers (ctl_to_host l) = ⊥
ForwardsTo lan except frame bc peers (deliver_chat m) = ⊥
ForwardsTo lan except frame bc peers (close_peer q) = ⊥
ForwardsTo lan except frame bc peers close_host_pc = ⊥
ForwardsTo lan except frame bc peers emit = ⊥

some_injective : (a b : List ℕ) → text_eq a b ≡ false → ◌≢◌ {A = Option (List ℕ)} (some b) (some a)
some_injective a b ne same = ground (arith, text_eq_iff a b)

module _ (lan : Bool) (frame : List ℕ) (r : Room) where
  send_to-ForwardsTo :
      (except : Option (List ℕ)) (q : List ℕ)
      → except ≢ some q
      → All (ForwardsTo lan except frame r.bc r.peers) (send_to q frame r)
  unfolding send_to
  send_to-ForwardsTo except q ne = elim (Bool-cases (link_open (lookup q r.peers))) [
    | inl ready ↦ rw ready ((refl, ready, ne), tt)
    | inr shut ↦ rw shut tt
  ]

  flood_over-ForwardsTo :
      (peers : List (List ℕ × PeerLink)) (except : Option (List ℕ))
      → All (ForwardsTo lan except frame r.bc r.peers) (flood_over peers frame except r)
  unfolding flood_over
  flood_over-ForwardsTo [] except = tt
  flood_over-ForwardsTo ((id, link) ∷ rest) none =
      All-append _ (send_to id frame r) _ (send_to-ForwardsTo none id (λ e. cc))
        (flood_over-ForwardsTo rest none)
  flood_over-ForwardsTo ((id, link) ∷ rest) (some peer) = elim (Bool-cases (text_eq id peer)) [
    | inl same ↦ rw same (flood_over-ForwardsTo rest (some peer))
    | inr other ↦ rw other (
        All-append _ (send_to id frame r) _
          (send_to-ForwardsTo (some peer) id (some_injective id peer other))
          (flood_over-ForwardsTo rest (some peer)))
  ]

post_lan-ForwardsTo :
    (except : Option (List ℕ)) (frame : List ℕ) (r : Room)
    → All (ForwardsTo true except frame r.bc r.peers) (post_lan frame r)
post_lan-ForwardsTo except frame r = elim (Bool-cases r.bc) [
  | inl up ↦ rw up ((refl, refl, refl), tt)
  | inr down ↦ rw down tt
]

module _ (peer frame : List ℕ) (r : Room) where
  everywhere :
      All
        (ForwardsTo true (some peer) frame r.bc r.peers)
        (post_lan frame r ++ flood frame (some peer) r)
  everywhere =
      All-append _ (post_lan frame r) _ (post_lan-ForwardsTo (some peer) frame r)
        (flood_over-ForwardsTo true frame r r.peers (some peer))

  route_peer-ForwardsTo :
      (owner : Option (List ℕ))
      → All (ForwardsTo true (some peer) frame r.bc r.peers) (route_peer peer frame owner r)
  route_peer-ForwardsTo none = everywhere
  route_peer-ForwardsTo (some []) = everywhere
  route_peer-ForwardsTo (some (c ∷ cs)) = elim (Bool-cases (text_eq (c ∷ cs) local_port)) [
    | inl here ↦ rw here (post_lan-ForwardsTo (some peer) frame r)
    | inr away ↦ elim (Bool-cases (text_eq (c ∷ cs) peer)) [
      | inl same ↦ rw (away, same) everywhere
      | inr other ↦
          rw (away, other)
            (send_to-ForwardsTo true frame r (some peer) (c ∷ cs)
              (some_injective (c ∷ cs) peer other))
    ]
  ]

-- A frame from a peer goes on as it came, to this LAN while it is open and to open peers only, and
-- never back to the peer that it came from, whatever the switch has learned.
pub on_peer_frame-ForwardsTo :
    (peer frame : List ℕ) (r : Room)
    → All (ForwardsTo true (some peer) frame r.bc r.peers) (on_peer_frame peer frame r).0
unfolding on_peer_frame
on_peer_frame-ForwardsTo peer frame r = elim (Bool-cases (ltb (length frame) 14)) [
  | inl short ↦ rw short tt
  | inr whole ↦
      rw whole (
        route_peer-ForwardsTo peer frame (learn frame peer r) (owner_of frame (learn frame peer r)))
]

-- A frame of this LAN is never put on this LAN again.
route_local-ForwardsTo :
    (frame : List ℕ) (owner : Option (List ℕ)) (r : Room)
    → All (ForwardsTo false none frame r.bc r.peers) (route_local frame owner r)
route_local-ForwardsTo frame none r = flood_over-ForwardsTo false frame r r.peers none
route_local-ForwardsTo frame (some []) r = flood_over-ForwardsTo false frame r r.peers none
route_local-ForwardsTo frame (some (c ∷ cs)) r = elim (Bool-cases (text_eq (c ∷ cs) local_port)) [
  | inl here ↦ rw here (flood_over-ForwardsTo false frame r r.peers none)
  | inr away ↦ rw away (send_to-ForwardsTo false frame r none (c ∷ cs) (λ e. cc))
]

-- A frame of this LAN goes on as it came, from a host to open peers only: it is never put on the LAN
-- again.
pub on_lan_frame-ForwardsTo :
    (frame : List ℕ) (r : Room)
    → r.role ≡ host
    → All (ForwardsTo false none frame r.bc r.peers) (on_lan_frame frame r).0
unfolding on_lan_frame
on_lan_frame-ForwardsTo frame r e = elim (Bool-cases (ltb (length frame) 14)) [
  | inl short ↦ rw short tt
  | inr whole ↦ rw whole (hosted r.role e)
]
  where
    hosted :
        (role : Role)
        → role ≡ host
        → All (ForwardsTo false none frame r.bc r.peers) (forward_local role frame r).0
    hosted host e =
        route_local-ForwardsTo frame (owner_of frame (learn frame local_port r))
          (learn frame local_port r)
    hosted member e = cc
