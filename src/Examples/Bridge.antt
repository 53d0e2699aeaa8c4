-- ===== src/Examples/Bridge.antt =====
-- Concrete runs of a bridge (web/app/net-bridge.ts): a host with two members, and a member.
use vinx.Prelude.{
  ℕ, ◌≡◌, ◌≢◌, refl, ap, true, false, none, some, List, [], ◌∷◌, ◌++◌, arith, All, replicate, take,
  get_or, text_eq,
}
use vinx.Prelude.Assoc.{text_key, lookup}
use vinx.Prelude.Text.{codes, or_else}
use vinx.Bridge.{Room, RoomState, host, PeerLink, new_room, chat, hello, to_peer}
use vinx.Bridge.Switch.{on_peer_frame, on_lan_frame}
use vinx.Bridge.Control.{someone, cut_to, on_peer_line}
use vinx.Bridge.Events.{
  HostEvent, MemberEvent, relay_opened, lan_opened, ctl_opened, link_lost, started, offer_comes,
  peer_lan_ready, peer_ctl_ready, peer_says, peer_frame, peer_gone, stopped,
}
use vinx.Bridge.Forward.{ForwardsTo, on_peer_frame-ForwardsTo, on_lan_frame-ForwardsTo}
use vinx.Bridge.Learned.{
  sends_to, on_lan_frame-learned, on_peer_frame-learned, on_peer_frame-floods,
}
use vinx.Bridge.Speech.{Says, on_peer_line-Says}

abbrev ann : List ℕ
ann = codes "ann"

abbrev bob : List ℕ
bob = codes "bob"

abbrev ready_link : List ℕ → PeerLink
ready_link name = record { lan = some true; ctl = some true; name = name; ip = [] }

abbrev party : Room
party = record (new_room host (codes "me") []) {
  state = RoomState.on;
  bc = true;
  peers = (ann, ready_link ann) ∷ (bob, ready_link bob) ∷ [];
}

-- A frame of 14 bytes from the address of sixes to the address of fours, and one back.
abbrev fours : List ℕ
fours = replicate 6 4

abbrev sixes : List ℕ
sixes = replicate 6 6

abbrev there_frame : List ℕ
there_frame = fours ++ (sixes ++ (8 ∷ 0 ∷ []))

abbrev back_frame : List ℕ
back_frame = sixes ++ (fours ++ (8 ∷ 0 ∷ []))

abbrev group_frame : List ℕ
group_frame = replicate 6 255 ++ (sixes ++ (8 ∷ 0 ∷ []))

on_peer_frame-ForwardsTo_example :
    All
      (ForwardsTo true (some ann) group_frame party.bc party.peers)
      (on_peer_frame ann group_frame party).0
on_peer_frame-ForwardsTo_example = on_peer_frame-ForwardsTo ann group_frame party

on_lan_frame-ForwardsTo_example :
    All (ForwardsTo false none group_frame party.bc party.peers) (on_lan_frame group_frame party).0
on_lan_frame-ForwardsTo_example = on_lan_frame-ForwardsTo group_frame party refl

addresses_differ : fours ≢ sixes
addresses_differ e = absurd (omega (arith, ap (λ (zs : List ℕ). get_or zs 0 0) e))

ann_not_local : ann ≢ codes "local"
ann_not_local e = absurd (omega (arith, ap (λ (zs : List ℕ). get_or zs 0 0) e))

ann_not_bob : ann ≢ bob
ann_not_bob e = absurd (omega (arith, ap (λ (zs : List ℕ). get_or zs 0 0) e))

on_lan_frame-learned_example :
    (on_lan_frame back_frame (on_peer_frame ann there_frame party).1).0
    ≡ to_peer ann back_frame ∷ []
on_lan_frame-learned_example =
    on_lan_frame-learned b'a' (codes "nn") there_frame back_frame party (omega arith) (omega arith)
      refl refl addresses_differ ann_not_local (unfold lookup text_eq in refl) refl

on_peer_frame-learned_example :
    (on_peer_frame bob back_frame (on_peer_frame ann there_frame party).1).0
    ≡ to_peer ann back_frame ∷ []
on_peer_frame-learned_example =
    on_peer_frame-learned b'a' (codes "nn") there_frame back_frame party (omega arith) (omega arith)
      refl refl addresses_differ ann_not_local (unfold lookup text_eq in refl) bob ann_not_bob

on_peer_frame-floods_example : sends_to bob (on_peer_frame ann group_frame party).0 ≡ 1
on_peer_frame-floods_example =
    on_peer_frame-floods ann bob group_frame party (unfold lookup text_eq in (refl, (refl, tt)))
      (omega arith) refl (unfold lookup text_eq in refl) ann_not_bob

on_peer_line-Says_example :
    All
      (Says ann
        (or_else ann someone)
        (take 512 (codes "hi"))
        (cut_to (some bob))
        (codes "me")
        party.peers)
      (on_peer_line ann (chat (codes "bob") (codes "hi") (some bob)) party).0
on_peer_line-Says_example =
    on_peer_line-Says ann (codes "bob") (codes "hi") (some bob) (ready_link ann) party
      (unfold lookup text_eq in refl)

abbrev evening : List HostEvent
evening =
    started
    ∷ offer_comes ann
    ∷ peer_lan_ready ann true
    ∷ peer_ctl_ready ann true
    ∷ peer_says ann (hello ann [])
    ∷ peer_frame ann there_frame
    ∷ offer_comes bob
    ∷ peer_gone ann
    ∷ stopped
    ∷ []

abbrev visit : List MemberEvent
visit = relay_opened ∷ lan_opened ∷ ctl_opened ∷ link_lost ∷ []
