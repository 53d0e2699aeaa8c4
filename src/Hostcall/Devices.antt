-- ===== src/Hostcall/Devices.antt =====
-- The methods of web/app/hostcall.ts that hand on to the desktop: to the person, to a device or to the
-- bridge. `ask` is a method up to the call of the desktop, which is a `Deed`, and `reply` what it makes
-- of the answer, which is outside; of a result only whether there is one, but for the listing of
-- `ble.services`, which `services_end` may put into a file. `has_surface` tells what the desktop lends.
-- The methods window.*, `http.fetch` and `debug.js` have files of their own.
use vinx.Prelude.{
  ◌++◌, ℕ, ◌+◌, Bool, true, false, not, ◌&&◌, ◌||◌, Option, none, some, List, [], ◌∷◌, map, leb,
  ◌==◌, if◌then◌else◌, length, take, all,
}
use vinx.Prelude.Text.{codes, is_empty, or_else}
use vinx.Rpc.Json.{Json, bool, property, as_string}
use vinx.Rpc.Link.State.{inline_max_size}
use vinx.Hostcall.{
  Fault, invalid_params, unavailable, resource_busy, requires_foreground, other_error, Result, ok,
  err, RefIo, Serve, pure, or_raise, ◌>>=◌,
}
use vinx.Hostcall.Refs.{is_word, is_bare, starts_with, or_nothing, safe_id, read_ref, write_ref}

-- What the desktop may lend.
pub data Lent : Type 0 where
  notifier speaker camera url_opener file_opener downloader ble bridge : Lent

pub data Deed : Type 0 where
  notify speak capture open_url : List ℕ → Deed
  open_file download : List ℕ → List ℕ → Deed
  ble_connect : Option (List ℕ) → Deed
  ble_scan : Bool → Deed
  ble_status ble_services ble_disconnect : Deed
  ble_read : List ℕ → List ℕ → Deed
  ble_write : List ℕ → List ℕ → List ℕ → Deed
  ble_subscribe : List ℕ → List ℕ → Bool → Deed
  bridge_start : List ℕ → List ℕ → Deed
  bridge_join : List ℕ → List ℕ → List ℕ → Deed
  bridge_say : List ℕ → Option (List ℕ) → Deed
  bridge_stop bridge_status : Deed

pub data Method : Type 0 where
  notify_show speech_speak camera_capture window_open_url resource_open resource_download : Method
  connect status scan services read write subscribe disconnect : Method
  start join stop say room_status : Method

-- `CAMERA_NAME`
abbrev pub is_word_or_dash : ℕ → Bool
is_word_or_dash c = is_word c || c == b'-'

unfoldable pub is_camera_name : List ℕ → Bool
is_camera_name [] = false
is_camera_name (c ∷ cs) = is_word_or_dash c && (leb (length cs) 63 && all is_bare cs)

-- `/^https?:\/\//i`
abbrev pub lower : ℕ → ℕ
lower c = if leb b'A' c && leb c b'Z' then c + 32 else c

abbrev pub is_web_url : List ℕ → Bool
is_web_url url =
    starts_with (codes "http://") (map lower url) || starts_with (codes "https://") (map lower url)

-- `/^([0-9a-fA-F]{2})+$/`
abbrev pub is_hex_digit : ℕ → Bool
is_hex_digit c =
    (leb b'0' c && leb c b'9') || ((leb b'a' c && leb c b'f') || (leb b'A' c && leb c b'F'))

unfoldable pub is_hex_pairs : List ℕ → Bool
is_hex_pairs [] = true
is_hex_pairs (c ∷ []) = false
is_hex_pairs (c ∷ d ∷ rest) = is_hex_digit c && (is_hex_digit d && is_hex_pairs rest)

abbrev pub is_bytes : List ℕ → Bool
is_bytes hex = not (is_empty hex) && (is_hex_pairs hex && leb (length hex) 1024)

-- `params.on !== false`, `params.off === true`
abbrev pub is_false : Option Json → Bool
is_false (some (bool false)) = true
is_false _ = false

abbrev pub is_true : Option Json → Bool
is_true (some (bool true)) = true
is_true _ = false

abbrev pub if_filled : List ℕ → Option (List ℕ)
if_filled [] = none
if_filled (c ∷ cs) = some (c ∷ cs)

abbrev pub text_in : List ℕ → Json → List ℕ
text_in key params = or_nothing (as_string (property key params))

abbrev pub name_in : Json → List ℕ
name_in params = take 32 (or_else (text_in (codes "name") params) (codes "someone"))

abbrev pub ip_in : Json → List ℕ
ip_in params = take 15 (text_in (codes "ip") params)

module _ {S : Type 0} where
  abbrev pub want_str : List ℕ → Json → Serve S (List ℕ)
  want_str key params = or_raise (if_filled (text_in key params)) invalid_params

  abbrev pub want : Bool → Fault → Serve S Unit
  want true f s = (ok tt, s)
  want false f s = (err f, s)

module _ {S : Type 0} (io : RefIo S) (has_surface : Lent → Bool) where
  abbrev pub lent : Lent → Serve S Unit
  lent what = want (has_surface what) unavailable

  unfoldable pub ask : Method → Json → Serve S Deed
  ask notify_show params = do
    text ← want_str (codes "text") params
    _ ← lent notifier
    pure (notify text)
  ask speech_speak params = do
    text ← want_str (codes "text") params
    _ ← lent speaker
    pure (speak text)
  ask camera_capture params = do
    name ← want_str (codes "name") params
    _ ← want (is_camera_name name) invalid_params
    _ ← lent camera
    pure (capture name)
  ask window_open_url params = do
    url ← want_str (codes "url") params
    _ ← want (is_web_url url) invalid_params
    _ ← lent url_opener
    pure (open_url url)
  ask resource_open params = do
    name ← want_str (codes "name") params
    bytes ← read_ref io (property (codes "ref") params)
    _ ← lent file_opener
    pure (open_file name bytes)
  ask resource_download params = do
    name ← want_str (codes "name") params
    bytes ← read_ref io (property (codes "ref") params)
    _ ← lent downloader
    pure (download name bytes)
  ask connect params = do
    _ ← lent ble
    pure (ble_connect (if_filled (text_in (codes "service") params)))
  ask status params = do _ ← lent ble; pure ble_status
  ask scan params = do _ ← lent ble; pure (ble_scan (not (is_false (property (codes "on") params))))
  ask services params = do _ ← lent ble; pure ble_services
  ask read params = do
    _ ← lent ble
    svc ← want_str (codes "svc") params
    chr ← want_str (codes "chr") params
    pure (ble_read svc chr)
  ask write params = do
    _ ← lent ble
    hex ← want_str (codes "hex") params
    _ ← want (is_bytes hex) invalid_params
    svc ← want_str (codes "svc") params
    chr ← want_str (codes "chr") params
    pure (ble_write svc chr hex)
  ask subscribe params = do
    _ ← lent ble
    svc ← want_str (codes "svc") params
    chr ← want_str (codes "chr") params
    pure (ble_subscribe svc chr (is_true (property (codes "off") params)))
  ask disconnect params = do _ ← lent ble; pure ble_disconnect
  ask start params = do _ ← lent bridge; pure (bridge_start (name_in params) (ip_in params))
  ask join params = do
    _ ← lent bridge
    code ← want_str (codes "code") params
    pure (bridge_join code (name_in params) (ip_in params))
  ask stop params = do _ ← lent bridge; pure bridge_stop
  ask say params = do
    _ ← lent bridge
    text ← want_str (codes "text") params
    pure (bridge_say text (if_filled (text_in (codes "to") params)))
  ask room_status params = do _ ← lent bridge; pure bridge_status

-- What `ble.services` answers of the listing that the device gave: the listing, or a file with it.
pub data ServicesReply : Type 0 where
  with_services : List ℕ → ServicesReply
  with_services_ref : List ℕ → ℕ → ServicesReply

unfoldable pub services_end :
    {S : Type 0} → RefIo S → (List ℕ → List ℕ) → List ℕ → List ℕ → Serve S ServicesReply
services_end io encode id listing =
    let bytes = encode listing in
    if leb (length bytes) inline_max_size then pure (with_services listing) else do
      path ← write_ref io (codes "ble-" ++ (safe_id id ++ codes ".out")) bytes
      pure (with_services_ref path (length bytes))

-- How a call of the desktop ends: with something, with false or null, or with an error: of the origin
-- broker, that another has the device or that the page is hidden, or any other.
pub data Answer : Type 0 where
  given nobody is_busy is_hidden broken : Answer

-- The methods that take false or null for a failure, and those that catch errors.
abbrev pub may_refuse : Method → Bool
may_refuse notify_show = true
may_refuse speech_speak = true
may_refuse window_open_url = true
may_refuse resource_open = true
may_refuse resource_download = true
may_refuse say = true
may_refuse _ = false

abbrev pub catches : Method → Bool
catches camera_capture = true
catches connect = true
catches scan = true
catches services = true
catches read = true
catches write = true
catches subscribe = true
catches start = true
catches join = true
catches _ = false

-- `unavailable(e)`
abbrev pub fault_of : Answer → Fault
fault_of is_busy = resource_busy
fault_of is_hidden = requires_foreground
fault_of _ = unavailable

abbrev pub thrown_by : Method → Answer → Result Unit
thrown_by method answer = err (if catches method then fault_of answer else other_error)

unfoldable pub reply : Method → Answer → Result Unit
reply method given = ok tt
reply method nobody = if may_refuse method then err unavailable else ok tt
reply method is_busy = thrown_by method is_busy
reply method is_hidden = thrown_by method is_hidden
reply method broken = thrown_by method broken
