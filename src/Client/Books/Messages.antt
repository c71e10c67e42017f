-- ===== src/Client/Books/Messages.antt =====
-- The books are kept by every message (priv/ui/js/client.js).
use wiregrid.Base.{
  ℕ, Option, none, some, if◌then◌else◌, ℕ_discrete, String, if_either, not, ◌||◌, ◌&&◌, Bool,
}
use wiregrid.Base.JsMap.{keys, has}
use wiregrid.Json.{Json, Fields, obj, get_field, is_str}
use wiregrid.Client.Types.{
  Error, Result, ok, err, Platform, Client, Frame, handshake_rejected, invalid_server_message,
}
use wiregrid.Client.Core.{settle, report, notify, debug}
use wiregrid.Client.Message.{
  reply_id, is_false, on_ready_message, on_reply, dispatch, on_value, on_message,
}
use wiregrid.Client.Frames.{report-OnlyLogs, notify-OnlyLogs, debug-OnlyLogs}
use wiregrid.Client.Books.{HasBooks, settle-HasBooks}
use wiregrid.Client.Books.Kept.{OnlyLogs-HasBooks, send_all-HasBooks, fail-HasBooks}

module _ (P : Platform) where
  open P use {Socket}

  pub notify-HasBooks : (n : _) (c : Client Socket) → HasBooks c → HasBooks (notify P n c)
  notify-HasBooks n c v = OnlyLogs-HasBooks _ _ (notify-OnlyLogs P n c) v

  pub debug-HasBooks :
      (event : String) (op : Option String) (c : Client Socket)
      → HasBooks c
      → HasBooks (debug P event op c)
  debug-HasBooks event op c v = OnlyLogs-HasBooks _ _ (debug-OnlyLogs P event op c) v

  report-HasBooks : (error : Error) (c : Client Socket) → HasBooks c → HasBooks (report error c)
  report-HasBooks error c v = OnlyLogs-HasBooks _ _ (report-OnlyLogs error c) v

  on_reply-HasBooks : (m : Fields) (c : Client Socket) → HasBooks c → HasBooks (on_reply P m c)
  unfolding on_reply
  on_reply-HasBooks m c v = answered (reply_id (get_field "id" m))
    where
      failed : Bool
      failed = is_str "error" (get_field "type" m) || is_false (get_field "ok" m)

      answered :
          (o : Option ℕ)
          → HasBooks (elim o [
            | none ↦ c
            | some id ↦
                if has ℕ_discrete id c.pending
                then debug P
                    (if failed then "rejected" else "response")
                    none
                    (settle id (if failed then err (Error.response (obj m)) else ok (obj m)) c)
                else c
          ])
      answered none = v
      answered (some id) =
          if_either HasBooks (has ℕ_discrete id c.pending)
            (λ there. debug-HasBooks _ none _ (settle-HasBooks id _ c v)) (λ other. v)

  on_ready_message-HasBooks :
      (message : Json) (c : Client Socket) → HasBooks c → HasBooks (on_ready_message P message c)
  unfolding on_ready_message
  on_ready_message-HasBooks message c v =
      notify-HasBooks _ _ (debug-HasBooks "ready" none _ (send_all-HasBooks P (keys c.pending) _ v))

  dispatch-HasBooks : (m : Fields) (c : Client Socket) → HasBooks c → HasBooks (dispatch P m c)
  unfolding dispatch
  dispatch-HasBooks m c v =
      if_either HasBooks (is_str "ready" (get_field "type" m) && not c.initialized)
        (λ e. on_ready_message-HasBooks (obj m) c v)
        λ e.
          if_either HasBooks (is_str "event" (get_field "type" m)) (λ e. notify-HasBooks _ c v)
            λ e.
              if_either HasBooks (not c.initialized && is_str "error" (get_field "type" m))
                (λ e. fail-HasBooks P handshake_rejected c v)
                λ e.
                  if_either HasBooks
                    (is_str "response" (get_field "type" m) || is_str "error" (get_field "type" m))
                    (λ e. on_reply-HasBooks m c v) (λ e. v)

  on_value-HasBooks :
      (value : Json) (c : Client Socket) → HasBooks c → HasBooks (on_value P value c)
  unfolding on_value
  on_value-HasBooks (obj m) c v = dispatch-HasBooks m c v
  on_value-HasBooks _ c v = report-HasBooks invalid_server_message c v

  pub on_message-HasBooks :
      (frame : Frame) (c : Client Socket) → HasBooks c → HasBooks (on_message P frame c)
  unfolding on_message
  on_message-HasBooks frame c v = if_either HasBooks c.closed (λ e. v) (λ e. parsed (P.parse _))
    where
      parsed :
          (r : Result Json)
          → HasBooks (elim r [ err error ↦ report error c | ok value ↦ on_value P value c ])
      parsed (err error) = report-HasBooks error c v
      parsed (ok value) = on_value-HasBooks value c v
