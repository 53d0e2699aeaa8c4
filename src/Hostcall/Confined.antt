-- ===== src/Hostcall/Confined.antt =====
-- Whatever the machine calls, the desktop is asked only for what the guards let through
-- (web/app/hostcall.ts).
use vinx.Prelude.{
  ℕ, suc, ◌+◌, ◌≤◌, ◌≡◌, ◌≢◌, refl, Bool, true, false, not, ◌&&◌, Option, List, [], ◌∷◌, arith, leb,
  leb→le, length, length-take, take, All,
}
use vinx.Prelude.Text.{codes, is_empty}
use vinx.Share.{starts_with_dot}
use vinx.Rpc.Json.{Json, property}
use vinx.Hostcall.{invalid_params, unavailable, RefIo, Serve, pure, ◌>>=◌}
use vinx.Hostcall.Refs.{read_ref}
use vinx.Hostcall.Devices.{
  Lent, notifier, speaker, camera, url_opener, file_opener, downloader, ble, bridge, Deed, notify,
  speak, capture, open_url, open_file, download, ble_connect, ble_scan, ble_status, ble_services,
  ble_disconnect, ble_read, ble_write, ble_subscribe, bridge_start, bridge_join, bridge_say,
  bridge_stop, bridge_status, Method, notify_show, speech_speak, camera_capture, window_open_url,
  resource_open, resource_download, connect, status, scan, services, read, write, subscribe,
  disconnect, start, join, stop, say, room_status, is_camera_name, is_web_url, is_hex_digit,
  is_hex_pairs, is_bytes, is_false, is_true, if_filled, text_in, name_in, ip_in, want_str, want,
  lent, ask,
}
use vinx.Hostcall.Guards.{
  AllOk, bind-AllOk, want-AllOk, want_str-AllOk, camera-IsPlain, FromTmp, read_ref-AllOk, both_true,
}

abbrev pub Filled : List ℕ → Type 0
Filled text = is_empty text ≡ false

-- What a deed may be: texts that are not empty; a picture's name of one segment, hidden by no dot and
-- of at most 64 units; a web URL; bytes that stand under a name of one segment in the directory of session
-- resources;
-- at most 512 whole bytes for a device; a name of at most 32 units and an address of at most 15 for
-- the bridge.
abbrev pub IsFit : {S : Type 0} → RefIo S → S → Deed → Type 0
IsFit io s (notify text) = Filled text
IsFit io s (speak text) = Filled text
IsFit io s (capture name) =
    All (λ c. c ≢ b'/') name × (starts_with_dot name ≡ false) × (length name ≤ 64) × Filled name
IsFit io s (open_url url) = is_web_url url ≡ true
IsFit io s (open_file name bytes) = Filled name × FromTmp io s bytes
IsFit io s (download name bytes) = Filled name × FromTmp io s bytes
IsFit io s (ble_connect service) = Unit
IsFit io s (ble_scan is_on) = Unit
IsFit io s ble_status = Unit
IsFit io s ble_services = Unit
IsFit io s ble_disconnect = Unit
IsFit io s (ble_read svc chr) = Filled svc × Filled chr
IsFit io s (ble_write svc chr hex) =
    Filled svc
    × Filled chr
    × ((n : ℕ) × (length hex ≡ n + n) × (n ≤ 512))
    × All (λ c. is_hex_digit c ≡ true) hex
IsFit io s (ble_subscribe svc chr off) = Filled svc × Filled chr
IsFit io s (bridge_start name ip) = (length name ≤ 32) × (length ip ≤ 15)
IsFit io s (bridge_join code name ip) = Filled code × (length name ≤ 32) × (length ip ≤ 15)
IsFit io s (bridge_say text to) = Filled text
IsFit io s bridge_stop = Unit
IsFit io s bridge_status = Unit

-- What lends a deed its means.
abbrev pub lender : Deed → Lent
lender (notify text) = notifier
lender (speak text) = speaker
lender (capture name) = camera
lender (open_url url) = url_opener
lender (open_file name bytes) = file_opener
lender (download name bytes) = downloader
lender (ble_connect service) = ble
lender (ble_scan is_on) = ble
lender ble_status = ble
lender ble_services = ble
lender ble_disconnect = ble
lender (ble_read svc chr) = ble
lender (ble_write svc chr hex) = ble
lender (ble_subscribe svc chr off) = ble
lender (bridge_start name ip) = bridge
lender (bridge_join code name ip) = bridge
lender (bridge_say text to) = bridge
lender bridge_stop = bridge
lender bridge_status = bridge

-- What the desktop lends, for a deed that is fit.
abbrev pub IsAllowed : {S : Type 0} → RefIo S → (Lent → Bool) → S → Deed → Type 0
IsAllowed io has_surface s d = (has_surface (lender d) ≡ true) × IsFit io s d

hex_pairs-even :
    (hex : List ℕ)
    → is_hex_pairs hex ≡ true
    → ((n : ℕ) × (length hex ≡ n + n)) × All (λ c. is_hex_digit c ≡ true) hex
unfolding is_hex_pairs
hex_pairs-even [] h = ((0, refl), tt)
hex_pairs-even (c ∷ []) h = absurd (cc)
hex_pairs-even (c ∷ d ∷ rest) h =
    let (hc, more) = both_true (is_hex_digit c) (is_hex_digit d && is_hex_pairs rest) h in
    let (hd, pairs) = both_true (is_hex_digit d) (is_hex_pairs rest) more in
    let half : (n : ℕ) × (length rest ≡ n + n) = (hex_pairs-even rest pairs).0 in
    ((suc half.0, omega (arith, half.1)), (hc, (hd, (hex_pairs-even rest pairs).1)))

bytes-even :
    (hex : List ℕ)
    → is_bytes hex ≡ true
    → ((n : ℕ) × (length hex ≡ n + n) × (n ≤ 512)) × All (λ c. is_hex_digit c ≡ true) hex
bytes-even hex h =
    let (filled, more) =
      both_true (not (is_empty hex)) (is_hex_pairs hex && leb (length hex) 1024) h in
    let (pairs, short) = both_true (is_hex_pairs hex) (leb (length hex) 1024) more in
    let half : (n : ℕ) × (length hex ≡ n + n) = (hex_pairs-even hex pairs).0 in
    (
      (half.0, half.1, omega (arith, half.1, leb→le (length hex) 1024 short)),
      (hex_pairs-even hex pairs).1,
    )

short_take : (n : ℕ) (xs : List ℕ) → length (take n xs) ≤ n
short_take n xs = omega (arith, length-take n xs)

module _ {S : Type 0} (io : RefIo S) (has_surface : Lent → Bool) where
  abbrev Allowed : Serve S Deed → S → Type 0
  Allowed m s = AllOk (λ d s'. IsAllowed io has_surface s d × (s' ≡ s)) (m s)

  after_lent :
      (s : S) (what : Lent) (m : Serve S Deed)
      → (has_surface what ≡ true → Allowed m s)
      → Allowed (lent io has_surface what >>= λ u. m) s
  after_lent s what m h =
      bind-AllOk s _ _ (lent io has_surface what) (λ u. m)
        (want-AllOk s (has_surface what) unavailable) (λ u e. h e)

  after_str :
      (s : S) (key : List ℕ) (params : Json) (f : List ℕ → Serve S Deed)
      → ((text : List ℕ) → Filled text → Allowed (f text) s)
      → Allowed (want_str key params >>= f) s
  after_str s key params f h =
      bind-AllOk s _ _ (want_str key params) f (want_str-AllOk s key params) h

  after_want :
      (s : S) (b : Bool) (m : Serve S Deed)
      → (b ≡ true → Allowed m s)
      → Allowed (want b invalid_params >>= λ u. m) s
  after_want s b m h =
      bind-AllOk s _ _ (want b invalid_params) (λ u. m) (want-AllOk s b invalid_params) (λ u e. h e)

  after_read :
      (s : S) (ref : Option Json) (f : List ℕ → Serve S Deed)
      → ((bytes : List ℕ) → FromTmp io s bytes → Allowed (f bytes) s)
      → Allowed (read_ref io ref >>= f) s
  after_read s ref f h = bind-AllOk s _ _ (read_ref io ref) f (read_ref-AllOk io s ref) h

  after_one :
      (s : S) (key : List ℕ) (p : Json) (f : List ℕ → Deed)
      → ((text : List ℕ) → has_surface (lender (f text)) ≡ true)
      → ((text : List ℕ) → Filled text → IsFit io s (f text))
      → Allowed (want_str key p >>= λ text. pure (f text)) s
  after_one s key p f l h =
      after_str s key p (λ text. pure (f text)) (λ text e. ((l text, h text e), refl))

  -- The service and the characteristic of a device.
  abbrev at_device : Json → (List ℕ → List ℕ → Deed) → Serve S Deed
  at_device p f = do
    svc ← want_str (codes "svc") p
    chr ← want_str (codes "chr") p
    pure (f svc chr)

  at_device-Allowed :
      (s : S) (p : Json) (f : List ℕ → List ℕ → Deed)
      → ((svc chr : List ℕ) → has_surface (lender (f svc chr)) ≡ true)
      → ((svc chr : List ℕ) → Filled svc → Filled chr → IsFit io s (f svc chr))
      → Allowed (at_device p f) s
  at_device-Allowed s p f l h =
      after_str s (codes "svc") p (λ svc. want_str (codes "chr") p >>= λ chr. pure (f svc chr))
        (λ svc a. after_one s (codes "chr") p (f svc) (l svc) (λ chr b. h svc chr a b))

  abbrev sending : Json → List ℕ → Serve S Deed
  sending p hex = at_device p (λ svc chr. ble_write svc chr hex)

  -- A deed, where the desktop lends what it takes.
  abbrev lending : Deed → Serve S Deed
  lending d = lent io has_surface (lender d) >>= λ u. pure d

  lending-Allowed : (s : S) (d : Deed) → IsFit io s d → Allowed (lending d) s
  lending-Allowed s d h = after_lent s (lender d) (pure d) (λ l. ((l, h), refl))

  abbrev lending_bytes : (List ℕ → Deed) → Json → Serve S Deed
  lending_bytes f p = read_ref io (property (codes "ref") p) >>= λ bytes. lending (f bytes)

  lending_bytes-Allowed :
      (s : S) (f : List ℕ → Deed) (p : Json)
      → ((bytes : List ℕ) → FromTmp io s bytes → IsFit io s (f bytes))
      → Allowed (lending_bytes f p) s
  lending_bytes-Allowed s f p h =
      after_read s (property (codes "ref") p) (λ bytes. lending (f bytes))
        (λ bytes from. lending-Allowed s (f bytes) (h bytes from))

  -- Of the methods that hand on to the person, to a device or to the bridge, whichever the machine calls
  -- and with whatever parameters: if the desktop is asked for anything, it lends the means, and the
  -- deed is fit: texts that are not empty; a picture's name of one segment, hidden by no dot and of at
  -- most 64 units; a web URL; bytes read under a name of one segment, dots included, in the directory of session resources; at
  -- most 512 whole bytes in hexadecimal for a device; a name of at most 32 units and an address of at
  -- most 15 for the bridge. Until then the files are as they were.
  pub ask-IsAllowed :
      (method : Method) (params : Json) (s : S)
      → AllOk (λ d s'. IsAllowed io has_surface s d × (s' ≡ s)) (ask io has_surface method params s)
  unfolding ask
  ask-IsAllowed notify_show p s =
      after_str s (codes "text") p (λ text. lending (notify text))
        (λ text e. lending-Allowed s (notify text) e)
  ask-IsAllowed speech_speak p s =
      after_str s (codes "text") p (λ text. lending (speak text))
        (λ text e. lending-Allowed s (speak text) e)
  ask-IsAllowed camera_capture p s =
      after_str s (codes "name") p
        (λ name. want (is_camera_name name) invalid_params >>= λ u. lending (capture name))
        (λ name e. after_want s (is_camera_name name) (lending (capture name)) (λ is.
          let (plain, bare, short) = camera-IsPlain name is in
          lending-Allowed s (capture name) (plain, bare, short, e)))
  ask-IsAllowed window_open_url p s =
      after_str s (codes "url") p
        (λ url. want (is_web_url url) invalid_params >>= λ u. lending (open_url url))
        (λ url e.
          after_want s (is_web_url url) (lending (open_url url)) (lending-Allowed s (open_url url)))
  ask-IsAllowed resource_open p s =
      after_str s (codes "name") p (λ name. lending_bytes (open_file name) p)
        (λ name e. lending_bytes-Allowed s (open_file name) p (λ bytes from. (e, from)))
  ask-IsAllowed resource_download p s =
      after_str s (codes "name") p (λ name. lending_bytes (download name) p)
        (λ name e. lending_bytes-Allowed s (download name) p (λ bytes from. (e, from)))
  ask-IsAllowed connect p s =
      lending-Allowed s (ble_connect (if_filled (text_in (codes "service") p))) tt
  ask-IsAllowed status p s = lending-Allowed s ble_status tt
  ask-IsAllowed scan p s =
      lending-Allowed s (ble_scan (not (is_false (property (codes "on") p)))) tt
  ask-IsAllowed services p s = lending-Allowed s ble_services tt
  ask-IsAllowed read p s =
      after_lent s ble (at_device p ble_read)
        (λ l. at_device-Allowed s p ble_read (λ svc chr. l) (λ svc chr a b. (a, b)))
  ask-IsAllowed write p s =
      after_lent s ble
        (want_str (codes "hex") p >>= λ hex.
          want (is_bytes hex) invalid_params >>= λ u. sending p hex)
        (λ l.
          after_str s (codes "hex") p
            (λ hex. want (is_bytes hex) invalid_params >>= λ u. sending p hex)
            (λ hex e. after_want s (is_bytes hex) (sending p hex) (λ is.
              at_device-Allowed s p (λ svc chr. ble_write svc chr hex) (λ svc chr. l)
                (λ svc chr a b. (a, b, (bytes-even hex is).0, (bytes-even hex is).1)))))
  ask-IsAllowed subscribe p s =
      let off = is_true (property (codes "off") p) in
      after_lent s ble (at_device p (λ svc chr. ble_subscribe svc chr off)) (λ l.
        at_device-Allowed s p (λ svc chr. ble_subscribe svc chr off) (λ svc chr. l)
          (λ svc chr a b. (a, b)))
  ask-IsAllowed disconnect p s = lending-Allowed s ble_disconnect tt
  ask-IsAllowed start p s =
      lending-Allowed s (bridge_start (name_in p) (ip_in p)) (short_take 32 _, short_take 15 _)
  ask-IsAllowed join p s =
      after_lent s bridge
        (want_str (codes "code") p >>= λ code. pure (bridge_join code (name_in p) (ip_in p)))
        (λ l.
          after_one s (codes "code") p (λ code. bridge_join code (name_in p) (ip_in p)) (λ code. l)
            (λ code e. (e, short_take 32 _, short_take 15 _)))
  ask-IsAllowed stop p s = lending-Allowed s bridge_stop tt
  ask-IsAllowed say p s =
      let to = if_filled (text_in (codes "to") p) in
      after_lent s bridge (want_str (codes "text") p >>= λ text. pure (bridge_say text to))
        (λ l. after_one s (codes "text") p (λ text. bridge_say text to) (λ text. l) (λ text e. e))
  ask-IsAllowed room_status p s = lending-Allowed s bridge_status tt
