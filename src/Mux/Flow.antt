-- ===== src/Mux/Flow.antt =====
-- The accounts of the stream lane: what is in flight, what is queued, and what each call keeps.
use vinx.Prelude.{
  ℕ, ◌+◌, ◌≤◌, ◌≡◌, refl, sym, ap, ◌∙◌, Option, none, some, List, inl, inr, arith, leb, ◌==◌,
  length, Bool-cases, Option-cases, subst,
}
use vinx.Prelude.Assoc.{
  nat_eq, Distinct, lookup, insert, erase, total, weight, lookup-insert, lookup-erase,
  insert-Distinct, erase-Distinct, total-insert, total-erase,
}
use vinx.Mux.{
  Channel, Mux, mux_link_window, channel_queue_max, start_pump, run_pump, pump, settle, credit,
  credit_found, enqueue, with_queue, send, send_found, close, close_found, close_all, reset,
  open_channel, new_mux, pump_fuel,
}
use vinx.Mux.Queue.{enqueue-IsShed}
use vinx.Mux.Pumping.{IsChannel, Pumped, pump_loop-Pumped}

abbrev pub in_flight_of : Channel → ℕ
in_flight_of ch = ch.in_flight

pub record IsBounded (ch : Channel) : Type 0 where
  pub is_channel : IsChannel ch
  pub bounded : ch.queued_bytes ≤ channel_queue_max

-- What is in flight on the link is what is in flight on the channels, within the link's window;
-- each channel's queue is counted right and within its bound.
pub record IsValid (m : Mux) : Type 0 where
  pub distinct : Distinct m.channels
  pub balanced : m.link_in_flight ≡ total in_flight_of m.channels
  pub within : m.link_in_flight ≤ mux_link_window
  pub channels : (id : ℕ) (ch : Channel) → lookup id m.channels ≡ some ch → IsBounded ch

-- An update of one channel keeps what holds of all of them.
all_insert :
    (P : Channel → Type 0) (id : ℕ) (ch : Channel) (chs : List (ℕ × Channel))
    → P ch
    → ((j : ℕ) (c : Channel) → lookup j chs ≡ some c → P c)
    → (j : ℕ) (c : Channel) → lookup j (insert id ch chs) ≡ some c
    → P c
all_insert P id ch chs h all j c e = elim (Bool-cases (id == j)) [
  | inl here ↦
      let same : some ch ≡ some c = sym (lookup-insert id j ch chs ∙ rw here) ∙ e in
      subst P (cc same) h
  | inr there ↦ all j c (sym (lookup-insert id j ch chs ∙ rw there) ∙ e)
]

module _ (id : ℕ) (old ch : Channel) (m : Mux) where
  after : Pumped (start_pump ch m) (run_pump ch m)
  after = pump_loop-Pumped (pump_fuel ch.queue) (start_pump ch m)

  -- `pump` keeps the accounts, if they are right once `ch` is in the place of `old`.
  pump-IsValid :
      lookup id m.channels ≡ some old
      → Distinct m.channels
      → m.link_in_flight + old.in_flight ≡ total in_flight_of m.channels + ch.in_flight
      → m.link_in_flight ≤ mux_link_window
      → ((j : ℕ) (c : Channel) → lookup j m.channels ≡ some c → IsBounded c)
      → IsBounded ch
      → IsValid (pump id ch m).1
  unfolding pump
  pump-IsValid e d balance within all ok = record {
    distinct = insert-Distinct id _ m.channels d;
    balanced = omega (
      arith,
      after.share,
      balance,
      total-insert in_flight_of id (run_pump ch m).channel m.channels,
      ap (weight in_flight_of) e,
    );
    within = after.within within;
    channels =
        all_insert IsBounded id (run_pump ch m).channel m.channels
          (record {
            is_channel = after.is_channel ok.is_channel;
            bounded = omega (
              arith,
              (after.is_channel ok.is_channel).counted,
              ok.is_channel.counted,
              ok.bounded,
              after.shrinks,
            );
          })
          all;
  }

in_flight-le-total :
    (id : ℕ) (ch : Channel) (chs : List (ℕ × Channel))
    → Distinct chs
    → lookup id chs ≡ some ch
    → ch.in_flight ≤ total in_flight_of chs
in_flight-le-total id ch chs d e =
    omega (arith, total-erase in_flight_of id chs d, ap (weight in_flight_of) e)

-- A credit, for any channel and any number of bytes, keeps the accounts.
pub credit-IsValid : (id bytes : ℕ) (m : Mux) → IsValid m → IsValid (credit id bytes m).1
unfolding credit
credit-IsValid id bytes m v = elim (Option-cases (lookup id m.channels)) [
  | inl e ↦ rw (e, credit_found) v
  | inr (ch, e) ↦ rw (e, credit_found) (found ch e)
]
  where
    found :
        (ch : Channel)
        → lookup id m.channels ≡ some ch
        → IsValid (credit_found id bytes (some ch) m).1
    found ch e = elim (Bool-cases (leb bytes 0)) [
      | inl nothing ↦ rw nothing v
      | inr something ↦
          let ok = v.channels id ch e in
          let held = in_flight-le-total id ch m.channels v.distinct e in
          rw something (
            pump-IsValid id ch (settle bytes ch) _ e v.distinct (omega (arith, v.balanced, held))
              (omega (arith, v.within)) v.channels
              (record {
                is_channel = record {
                  counted = ok.is_channel.counted;
                  filled = ok.is_channel.filled;
                };
                bounded = ok.bounded;
              }))
    ]

-- So does a write of any bytes.
pub send-IsValid : (id : ℕ) (bytes : List ℕ) (m : Mux) → IsValid m → IsValid (send id bytes m).1
unfolding send
send-IsValid id bytes m v = elim (Option-cases (lookup id m.channels)) [
  | inl e ↦ rw (e, send_found) v
  | inr (ch, e) ↦ rw (e, send_found) (found ch e)
]
  where
    found :
        (ch : Channel)
        → lookup id m.channels ≡ some ch
        → IsValid (send_found id bytes (some ch) m).1
    found ch e = elim (Bool-cases (leb (length bytes) 0)) [
      | inl nothing ↦ rw nothing v
      | inr something ↦
          let ok = v.channels id ch e in
          let r = enqueue-IsShed bytes ch ok.is_channel (ground arith) in
          rw something (
            pump-IsValid id ch (with_queue (enqueue bytes ch) ch) _ e v.distinct
              (omega (arith, v.balanced)) v.within v.channels
              (record {
                is_channel = record { counted = r.counted; filled = r.filled };
                bounded = r.bounded;
              }))
    ]

-- Closing a channel gives its share of the link back.
pub close-IsValid : (id : ℕ) (m : Mux) → IsValid m → IsValid (close id m)
unfolding close
close-IsValid id m v = elim (Option-cases (lookup id m.channels)) [
  | inl e ↦ rw (e, close_found) v
  | inr (ch, e) ↦
      rw (e, close_found)
        (record {
          distinct = erase-Distinct id m.channels v.distinct;
          balanced = omega (
            arith,
            total-erase in_flight_of id m.channels v.distinct,
            ap (weight in_flight_of) e,
            v.balanced,
          );
          within = omega (arith, v.within);
          channels = λ j c found. v.channels j c (kept j c found);
        })
]
  where
    kept :
        (j : ℕ) (c : Channel)
        → lookup j (erase id m.channels) ≡ some c
        → lookup j m.channels ≡ some c
    kept j c found = ground (arith, lookup-erase id j m.channels)

pub close_all-IsValid : (m : Mux) → IsValid (close_all m)
unfolding close_all reset lookup
close_all-IsValid m = record {
  distinct = tt;
  balanced = refl;
  within = omega arith;
  channels = λ j c found. cc found;
}

-- Opening keeps the accounts if no channel of this number is open.
pub open_channel-IsValid :
    (id handler : ℕ) (window : Option ℕ) (m : Mux)
    → lookup id m.channels ≡ none
    → IsValid m
    → IsValid (open_channel id window handler m)
unfolding open_channel
open_channel-IsValid id handler window m fresh v = record {
  distinct = insert-Distinct id _ m.channels v.distinct;
  balanced = omega (
    arith,
    v.balanced,
    total-insert in_flight_of id _ m.channels,
    ap (weight in_flight_of) fresh,
  );
  within = v.within;
  channels =
      all_insert IsBounded id _ m.channels
        (record { is_channel = record { counted = refl; filled = tt }; bounded = omega arith })
        v.channels;
}

pub new_mux-IsValid : IsValid new_mux
unfolding lookup
new_mux-IsValid = record {
  distinct = tt;
  balanced = refl;
  within = omega arith;
  channels = λ j c found. cc found;
}
