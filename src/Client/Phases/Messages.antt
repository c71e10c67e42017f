-- ===== src/Client/Phases/Messages.antt =====
-- Every message keeps the client in one of its phases (priv/ui/js/client.js).
use wiregrid.Base.{
  ℕ, ◌≡◌, refl, false, Option, none, some, arith, if◌then◌else◌, ℕ_discrete, String, if_either, not,
  ◌||◌, ◌&&◌, Bool,
}
use wiregrid.Base.JsMap.{has}
use wiregrid.Json.{Json, Fields, obj, get_field, is_str}
use wiregrid.Client.Types.{
  Error, Result, ok, err, Platform, Client, Frame, handshake_rejected, invalid_server_message,
  Ready, resolved, Notice,
}
use wiregrid.Client.Core.{settle, settle_ready, report, notify, debug}
use wiregrid.Client.Message.{
  reply_id, is_false, on_ready_message, on_reply, dispatch, on_value, on_message,
}
use wiregrid.Client.Frames.{report-OnlyLogs, notify-OnlyLogs, debug-OnlyLogs}
use wiregrid.Client.Books.{HasBooks}
use wiregrid.Client.Phases.{HasPhases, OnlyLogs-HasPhases, settle-HasPhases, is_waiting}
use wiregrid.Client.Phases.Closing.{fail-HasPhases}
use wiregrid.Client.Phases.Sending.{send_all-HasPhases}

settle_ready_resolved : (r : Ready) (m : Json) → is_waiting (settle_ready r (resolved m)) ≡ false
unfolding settle_ready
settle_ready_resolved r m = ground arith

module _ (P : Platform) where
  open P use {Socket}

  pub notify-HasPhases : (n : Notice) (c : Client Socket) → HasPhases c → HasPhases (notify P n c)
  notify-HasPhases n c v = OnlyLogs-HasPhases _ _ (notify-OnlyLogs P n c) v

  pub debug-HasPhases :
      (event : String) (op : Option String) (c : Client Socket)
      → HasPhases c
      → HasPhases (debug P event op c)
  debug-HasPhases event op c v = OnlyLogs-HasPhases _ _ (debug-OnlyLogs P event op c) v

  pub report-HasPhases :
      (error : Error) (c : Client Socket) → HasPhases c → HasPhases (report error c)
  report-HasPhases error c v = OnlyLogs-HasPhases _ _ (report-OnlyLogs error c) v

  on_reply-HasPhases : (m : Fields) (c : Client Socket) → HasPhases c → HasPhases (on_reply P m c)
  unfolding on_reply
  on_reply-HasPhases m c v = answered (reply_id (get_field "id" m))
    where
      failed : Bool
      failed = is_str "error" (get_field "type" m) || is_false (get_field "ok" m)

      answered :
          (o : Option ℕ)
          → HasPhases (elim o [
            | none ↦ c
            | some id ↦
                if has ℕ_discrete id c.pending
                then debug P
                    (if failed then "rejected" else "response")
                    none
                    (settle id (if failed then err (Error.response (obj m)) else ok (obj m)) c)
                else c
          ])
      answered none = v
      answered (some id) =
          if_either HasPhases (has ℕ_discrete id c.pending)
            (λ there. debug-HasPhases _ none _ (settle-HasPhases id _ c v)) (λ other. v)

  on_ready_message-HasPhases :
      (message : Json) (c : Client Socket)
      → HasBooks c
      → c.closed ≡ false
      → HasPhases (on_ready_message P message c)
  unfolding on_ready_message
  on_ready_message-HasPhases message c b o = notify-HasPhases _ _ (
      debug-HasPhases "ready" none _
        (send_all-HasPhases P _ b o refl (settle_ready_resolved c.ready message) refl))

  dispatch-HasPhases :
      (m : Fields) (c : Client Socket)
      → HasBooks c
      → c.closed ≡ false
      → HasPhases c
      → HasPhases (dispatch P m c)
  unfolding dispatch
  dispatch-HasPhases m c b o v =
      if_either HasPhases (is_str "ready" (get_field "type" m) && not c.initialized)
        (λ e. on_ready_message-HasPhases (obj m) c b o)
        λ e.
          if_either HasPhases (is_str "event" (get_field "type" m)) (λ e. notify-HasPhases _ c v)
            λ e.
              if_either HasPhases (not c.initialized && is_str "error" (get_field "type" m))
                (λ e. fail-HasPhases P handshake_rejected c v)
                λ e.
                  if_either HasPhases
                    (is_str "response" (get_field "type" m) || is_str "error" (get_field "type" m))
                    (λ e. on_reply-HasPhases m c v) (λ e. v)

  on_value-HasPhases :
      (value : Json) (c : Client Socket)
      → HasBooks c
      → c.closed ≡ false
      → HasPhases c
      → HasPhases (on_value P value c)
  unfolding on_value
  on_value-HasPhases (obj m) c b o v = dispatch-HasPhases m c b o v
  on_value-HasPhases _ c b o v = report-HasPhases invalid_server_message c v

  pub on_message-HasPhases :
      (frame : Frame) (c : Client Socket)
      → HasBooks c
      → HasPhases c
      → HasPhases (on_message P frame c)
  unfolding on_message
  on_message-HasPhases frame c b v =
      if_either HasPhases c.closed (λ e. v) (λ e. parsed e (P.parse _))
    where
      parsed :
          c.closed ≡ false
          → (r : Result Json)
          → HasPhases (elim r [ err error ↦ report error c | ok value ↦ on_value P value c ])
      parsed o (err error) = report-HasPhases error c v
      parsed o (ok value) = on_value-HasPhases value c b o v
