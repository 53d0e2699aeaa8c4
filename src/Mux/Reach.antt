-- ===== src/Mux/Reach.antt =====
-- The states that the calls of the stream lane lead to (web/app/stream-mux.ts).
use vinx.Prelude.{ℕ, ◌≡◌, Option, none, List}
use vinx.Prelude.Assoc.{nat_eq, lookup}
use vinx.Mux.{Mux, credit, send, close, close_all, open_channel, new_mux}
use vinx.Mux.Flow.{
  IsValid, new_mux-IsValid, open_channel-IsValid, close-IsValid, close_all-IsValid, credit-IsValid,
  send-IsValid,
}

-- The states that calls lead to, where no number is opened while it is open.
pub data Reach : Mux → Type 0 where
  start : Reach new_mux
  opened :
      {m : Mux} (id handler : ℕ) (window : Option ℕ)
      → Reach m
      → lookup id m.channels ≡ none
      → Reach (open_channel id window handler m)
  closed : {m : Mux} (id : ℕ) → Reach m → Reach (close id m)
  all_closed : {m : Mux} → Reach m → Reach (close_all m)
  credited : {m : Mux} (id bytes : ℕ) → Reach m → Reach (credit id bytes m).1
  written : {m : Mux} (id : ℕ) (bytes : List ℕ) → Reach m → Reach (send id bytes m).1

-- In every state that calls lead to, the bytes in flight on the link are those of its channels and
-- fit the link's window, and each queue is counted right and within its bound.
pub Reach-IsValid : {m : Mux} → Reach m → IsValid m
Reach-IsValid start = new_mux-IsValid
Reach-IsValid (opened id handler window r fresh) =
    open_channel-IsValid id handler window _ fresh (Reach-IsValid r)
Reach-IsValid (closed id r) = close-IsValid id _ (Reach-IsValid r)
Reach-IsValid (all_closed r) = close_all-IsValid _
Reach-IsValid (credited id bytes r) = credit-IsValid id bytes _ (Reach-IsValid r)
Reach-IsValid (written id bytes r) = send-IsValid id bytes _ (Reach-IsValid r)
