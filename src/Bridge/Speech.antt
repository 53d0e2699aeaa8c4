-- ===== src/Bridge/Speech.antt =====
-- Who hears what a peer says, and under which name (web/app/net-bridge.ts).
use vinx.Prelude.{
  ℕ, ◌≡◌, ◌≢◌, ◌⊎◌, refl, true, false, Option, some, List, [], ◌∷◌, inl, inr, arith, if◌then◌else◌,
  take, text_eq, text_eq_iff, All, All-append, All-map, Bool-cases,
}
use vinx.Prelude.Assoc.{text_key, lookup}
use vinx.Prelude.Text.{trim, is_empty, or_else}
use vinx.Bridge.{
  Room, PeerLink, chat, Out, to_lan, to_peer, to_host, ctl_to_peer, ctl_to_host, deliver_chat,
  close_peer, close_host_pc, emit, is_open,
}
use vinx.Bridge.Control.{
  someone, is_direct, hears, fanout_over, fanout_chat, cut_to, is_for, peer_line_found,
  on_peer_line,
}

-- A listed peer, other than `speaker`, with an open control channel, that the line is for.
abbrev pub Audience : List ℕ → Option (List ℕ) → List ℕ → List (List ℕ × PeerLink) → Type 0
Audience speaker to q [] = ⊥
Audience speaker to q ((id, link) ∷ rest) =
    ((id ≡ q) × (speaker ≢ q) × (hears to link ≡ true) × (is_open link.ctl ≡ true))
    ⊎ Audience speaker to q rest

-- A chat line of these words under this name, to someone of its audience, or to this machine's own
-- screen if it is for it.
abbrev pub Says :
    List ℕ → List ℕ → List ℕ → Option (List ℕ) → List ℕ → List (List ℕ × PeerLink) → Out → Type 0
Says speaker name text to self peers (ctl_to_peer q line) =
    (line ≡ chat name text to) × Audience speaker to q peers
Says speaker name text to self peers (deliver_chat m) =
    (m.from ≡ name) × (m.text ≡ text) × (m.is_self ≡ false) × (is_for self to ≡ true)
Says speaker name text to self peers (to_lan f) = ⊥
Says speaker name text to self peers (to_peer q f) = ⊥
Says speaker name text to self peers (to_host f) = ⊥
Says speaker name text to self peers (ctl_to_host l) = ⊥
Says speaker name text to self peers (close_peer q) = ⊥
Says speaker name text to self peers close_host_pc = ⊥
Says speaker name text to self peers emit = ⊥

module _ (speaker name text : List ℕ) (to : Option (List ℕ)) (self : List ℕ) where
  Says-later :
      (first : List ℕ × PeerLink) (rest : List (List ℕ × PeerLink)) (o : Out)
      → Says speaker name text to self rest o
      → Says speaker name text to self (first ∷ rest) o
  Says-later first rest (ctl_to_peer q line) (e, a) = (e, inr a)
  Says-later first rest (deliver_chat m) h = h
  Says-later first rest (to_lan f) h = h
  Says-later first rest (to_peer q f) h = h
  Says-later first rest (to_host f) h = h
  Says-later first rest (ctl_to_host l) h = h
  Says-later first rest (close_peer q) h = h
  Says-later first rest close_host_pc h = h
  Says-later first rest emit h = h

  fanout_over-Says :
      (peers : List (List ℕ × PeerLink))
      → All
          (Says speaker name text to self peers)
          (fanout_over peers (chat name text to) to (some speaker))
  unfolding fanout_over
  fanout_over-Says [] = tt
  fanout_over-Says ((id, link) ∷ rest) =
      let more =
        All-map _ _ (fanout_over rest (chat name text to) to (some speaker))
          (Says-later (id, link) rest) (fanout_over-Says rest) in
      elim (Bool-cases (text_eq id speaker)) [
        | inl back ↦ rw back more
        | inr away ↦ elim (Bool-cases (hears to link)) [
          | inr deaf ↦ rw (away, deaf) more
          | inl listens ↦ elim (Bool-cases (is_open link.ctl)) [
            | inr shut ↦ simp (away, listens, shut) more
            | inl ready ↦
                simp (away, listens, ready) ((refl, inl (refl, differ id away, refl, refl)), more)
          ]
        ]
      ]
    where
      differ : (id : List ℕ) → text_eq id speaker ≡ false → speaker ≢ id
      differ id ne same = ground (arith, text_eq_iff id speaker)

-- What a peer says, under whatever name it claims, is passed on under the name that it gave with its
-- hello, cut to 512 units, to open listed peers other than itself; and where it is addressed, to
-- those of that name only. It shows on this machine's own screen only if it is for it.
pub on_peer_line-Says :
    (peer from text : List ℕ) (to : Option (List ℕ)) (link : PeerLink) (r : Room)
    → lookup peer r.peers ≡ some link
    → All
        (Says peer (or_else link.name someone) (take 512 text) (cut_to to) r.self_name r.peers)
        (on_peer_line peer (chat from text to) r).0
unfolding on_peer_line
on_peer_line-Says peer from text to link r e =
    rw (e, peer_line_found)
      (elim (Bool-cases (is_empty (trim (take 512 text)))) [
        | inl nothing ↦ rw nothing tt
        | inr words ↦ rw words (
            All-append _ (fanout_chat name (take 512 text) (cut_to to) (some peer) r) _
              (fanout_over-Says peer name (take 512 text) (cut_to to) r.self_name r.peers) floated)
      ])
  where
    name : List ℕ
    name = or_else link.name someone

    floated : All (Says peer name (take 512 text) (cut_to to) r.self_name r.peers) (
        if is_for r.self_name (cut_to to)
        then deliver_chat (record {
          from = or_else link.name someone;
          text = take 512 text;
          direct = is_direct (cut_to to);
          is_self = false;
        })
          ∷ []
        else [])
    floated = elim (Bool-cases (is_for r.self_name (cut_to to))) [
      | inl mine ↦ simp mine ((refl, refl, refl, refl), tt)
      | inr others ↦ rw others tt
    ]
