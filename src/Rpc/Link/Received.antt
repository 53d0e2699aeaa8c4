-- ===== src/Rpc/Link/Received.antt =====
-- The sender at what the guest sends (web/app/rpc.ts).
use vinx.Prelude.{
  ℕ, ◌+◌, ◌≡◌, refl, ◌||◌, Option, none, some, List, [], ◌∷◌, inl, inr, leb, if◌then◌else◌, length,
  Bool-cases, text_eq,
}
use vinx.Prelude.Assoc.{nat_eq, text_key, has}
use vinx.Rpc.Frame.{Frame, data_frame, ack}
use vinx.Rpc.Json.{
  Json, Fields, obj, null, bool, num, str, arr, codes, get_field, is_there, as_string,
}
use vinx.Rpc.Link.State.{Platform, Link, LinkState, idle, hello, up, unavailable, max_serve_pending}
use vinx.Rpc.Link.Receive.{
  run_serve, on_notification, cancel_target, target_of, on_identified, on_request, no_method,
  on_object, on_parsed, on_body, on_current, on_frame, on_frames, on_bytes, count_protocol_error,
  params_usable, epoch_of,
}
use vinx.Rpc.Link.Sound.{IsSound}
use vinx.Rpc.Link.Acks.{ack-IsSound}
use vinx.Rpc.Link.Answers.{respond-IsSound, response-IsSound, cancel_serve-IsSound}

module _ (platform : Platform) (now : ℕ) where
  notification-IsSound :
      (method : List ℕ) (body : Fields) (l : Link)
      → IsSound l
      → IsSound (on_notification platform now method body l)
  unfolding on_notification
  notification-IsSound method body l h = elim (Bool-cases (text_eq method (codes "rpc.cancel"))) [
    | inl cancel ↦ rw cancel (aimed (target_of platform (get_field (codes "params") body)))
    | inr other ↦
        rw other (record { flows = h.flows; armed = h.armed; plain = h.plain; bounded = h.bounded })
  ]
    where
      aimed : (id : Option (List ℕ)) → IsSound (cancel_target platform now id l)
      aimed none = h
      aimed (some id) = cancel_serve-IsSound platform now id l h

  identified-IsSound :
      (id method : List ℕ) (body : Fields) (l : Link)
      → IsSound l
      → IsSound (on_identified platform now id method body l)
  unfolding on_identified run_serve
  identified-IsSound id method body l h =
      elim (Bool-cases (params_usable platform (get_field (codes "params") body))) [
        | inr e ↦ rw e (respond-IsSound platform now _ l h)
        | inl e ↦ elim (Bool-cases (platform.serves_method method)) [
          | inr f ↦ rw (e, f) (respond-IsSound platform now _ l h)
          | inl f ↦ elim (Bool-cases (has id l.serves)) [
            | inl g ↦ rw (e, f, g) (respond-IsSound platform now _ l h)
            | inr g ↦ elim (Bool-cases (leb max_serve_pending (length l.serves))) [
              | inl full ↦ rw (e, f, g, full) (respond-IsSound platform now _ l h)
              | inr room ↦
                  rw (e, f, g, room)
                    (record {
                      flows = h.flows;
                      armed = h.armed;
                      plain = h.plain;
                      bounded = h.bounded;
                    })
            ]
          ]
        ]
      ]

  body-IsSound : (json : List ℕ) (l : Link) → IsSound l → IsSound (on_body platform now json l)
  unfolding on_body
  body-IsSound json l h = parsed (platform.parse json)
    where
      miscounted : IsSound (count_protocol_error l)
      miscounted = record { flows = h.flows; armed = h.armed; plain = h.plain; bounded = h.bounded }

      requested :
          (id : Option (List ℕ)) (method : List ℕ) (body : Fields)
          → IsSound (on_request platform now id method body l)
      requested none method body = notification-IsSound method body l h
      requested (some id) method body = identified-IsSound id method body l h

      answered : (id : Option (List ℕ)) (body : Fields) → IsSound (no_method platform now id body l)
      answered none body = miscounted
      answered (some id) body =
          elim (Bool-cases (
            is_there (get_field (codes "result") body)
            || is_there (get_field (codes "error") body))) [
              | inl e ↦ rw e (response-IsSound platform now id body l h)
              | inr e ↦ rw e miscounted
            ]

      object :
          (method : Option (List ℕ)) (body : Fields)
          → IsSound (on_object platform now method body l)
      object none body = answered (as_string (get_field (codes "id") body)) body
      object (some method) body = requested (as_string (get_field (codes "id") body)) method body

      parsed : (json : Option Json) → IsSound (on_parsed platform now json l)
      parsed (some (obj body)) = object (as_string (get_field (codes "method") body)) body
      parsed (some null) = miscounted
      parsed (some (bool b)) = miscounted
      parsed (some (num n)) = miscounted
      parsed (some (str s)) = miscounted
      parsed (some (arr xs)) = miscounted
      parsed none = miscounted

  current-IsSound : (f : Frame) (l : Link) → IsSound l → IsSound (on_current platform now f l)
  current-IsSound (ack epoch seq) l h = ack-IsSound platform now seq l h
  current-IsSound (data_frame epoch seq json) l h = elim (Bool-cases (leb seq l.guest_seq_seen)) [
    | inl seen ↦
        rw seen (record { flows = h.flows; armed = h.armed; plain = h.plain; bounded = h.bounded })
    | inr fresh ↦ rw fresh (
        body-IsSound json _
          (record { flows = h.flows; armed = h.armed; plain = h.plain; bounded = h.bounded }))
  ]

  frame-IsSound : (f : Frame) (l : Link) → IsSound l → IsSound (on_frame platform now f l)
  unfolding on_frame
  frame-IsSound f l h = received l.state refl
    where
      sorted : IsSound (
          if text_eq (epoch_of platform f) l.epoch then on_current platform now f l else record l {
            counters = record (l.counters) { stale_frames = l.counters.stale_frames + 1 };
          })
      sorted = elim (Bool-cases (text_eq (epoch_of platform f) l.epoch)) [
        | inl ours ↦ rw ours (current-IsSound f l h)
        | inr stale ↦
            rw stale
              (record { flows = h.flows; armed = h.armed; plain = h.plain; bounded = h.bounded })
      ]

      received : (s : LinkState) → l.state ≡ s → IsSound (on_frame platform now f l)
      received idle e = rw (e, on_frame) h
      received hello e = rw (e, on_frame) sorted
      received up e = rw (e, on_frame) sorted
      received unavailable e = rw (e, on_frame) sorted

  frames-IsSound : (fs : List Frame) (l : Link) → IsSound l → IsSound (on_frames platform now fs l)
  unfolding on_frames
  frames-IsSound [] l h = h
  frames-IsSound (f ∷ fs) l h = frames-IsSound fs _ (frame-IsSound f l h)

  pub bytes-IsSound :
      (bytes : List ℕ) (l : Link) → IsSound l → IsSound (on_bytes platform now bytes l)
  unfolding on_bytes
  bytes-IsSound bytes l h =
      frames-IsSound _ _
        (record { flows = h.flows; armed = h.armed; plain = h.plain; bounded = h.bounded })
