-- ===== src/Client/Message.antt =====
-- The handler of message events (priv/ui/js/client.js).
use wiregrid.Base.{
  ℕ, String, Bool, true, false, ◌&&◌, ◌||◌, not, Option, none, some, if◌then◌else◌, ℕ_discrete,
}
use wiregrid.Base.JsMap.{has, keys}
use wiregrid.Json.{Json, bool, num, obj, Fields, get_field, is_str}
use wiregrid.Client.Types.{
  handshake_rejected, invalid_server_message, response, ok, err, Frame, text, binary, on_ready,
  on_event, Platform, resolved, Client,
}
use wiregrid.Client.Core.{report, settle, notify, debug, fail, send_all, settle_ready}

-- `message.ok === false`.
abbrev pub is_false : Option Json → Bool
is_false (some (bool false)) = true
is_false _ = false

-- The request that a message answers: `message.id`, if it can be a key of `pending` at all.
abbrev pub reply_id : Option Json → Option ℕ
reply_id (some (num id)) = some id
reply_id _ = none

module _ (P : Platform) where
  open P use {Socket}

  unfoldable pub on_ready_message : Json → Client Socket → Client Socket
  on_ready_message message c = notify P (on_ready message) (
      debug P "ready" none (
        send_all P (keys c.pending) (record c {
          initialized = true;
          connect_timer = none;
          ready = settle_ready c.ready (resolved message);
        })))

  -- A response or an error that names a pending request settles it.
  unfoldable pub on_reply : Fields → Client Socket → Client Socket
  on_reply m c = elim (reply_id (get_field "id" m)) [
    | none ↦ c
    | some id ↦
        let failed = is_str "error" (get_field "type" m) || is_false (get_field "ok" m) in
        if has ℕ_discrete id c.pending
        then debug P (if failed then "rejected" else "response") none
            (settle id (if failed then err (response (obj m)) else ok (obj m)) c)
        else c
  ]

  unfoldable pub dispatch : Fields → Client Socket → Client Socket
  dispatch m c =
      let type = get_field "type" m in
      if is_str "ready" type && not c.initialized
      then on_ready_message (obj m) c
      else if is_str "event" type
      then notify P (on_event (obj m)) c
      else if not c.initialized && is_str "error" type
      then fail P handshake_rejected c
      else if is_str "response" type || is_str "error" type
      then on_reply m c
      else c

  -- Only an object that is no array is a message.
  unfoldable pub on_value : Json → Client Socket → Client Socket
  on_value (obj m) c = dispatch m c
  on_value _ c = report invalid_server_message c

  unfoldable pub frame_text : Frame → String
  frame_text (text s) = s
  frame_text (binary bytes) = P.decode bytes

  unfoldable pub on_message : Frame → Client Socket → Client Socket
  unfolding frame_text
  on_message frame c = if c.closed then c else elim (P.parse (frame_text frame)) [
    | err error ↦ report error c
    | ok value ↦ on_value value c
  ]
