-- ===== src/Client/Books/Kept.antt =====
-- The books are kept by sending and by closing (priv/ui/js/client.js).
use wiregrid.Base.{
  ℕ, ◌+◌, ◌≡◌, refl, some, List, [], ◌∷◌, ltb, ℕ_discrete, Option-cases, inl, inr, String,
  if_either, not, ◌||◌,
}
use wiregrid.Base.JsMap.{get, keys}
use wiregrid.Client.Types.{
  Error, Result, ok, err, Platform, Body, queued, sent, Item, Client, socket_closed, Effect,
}
use wiregrid.Client.Core.{
  settle, debug, finish, fail, close, transmit, send_body, send_pending, send_all,
}
use wiregrid.Client.Frames.{OnlyLogs, report-OnlyLogs, debug-OnlyLogs}
use wiregrid.Client.Books.{HasBooks, settle-HasBooks, settle_all-HasBooks, mark_sent-HasBooks}

pub OnlyLogs-HasBooks : {S : Type 0} (c d : Client S) → OnlyLogs c d → HasBooks c → HasBooks d
OnlyLogs-HasBooks c d (log, e, _) v = rw e v

module _ (P : Platform) where
  open P use {Socket}

  transmit-HasBooks :
      (id : ℕ) (op payload : String) (c : Client Socket)
      → HasBooks c
      → HasBooks (transmit P id op payload c)
  unfolding transmit
  transmit-HasBooks id op payload c v = sent_or_failed (P.send c.socket payload)
    where
      sent_or_failed :
          (r : Result Socket)
          → HasBooks (elim r [
            | err error ↦ settle id (err error) c
            | ok socket ↦
                debug P "request"
                  (some op)
                  (record c { socket = socket; log = Effect.request_sent payload ∷ c.log })
          ])
      sent_or_failed (ok socket) = OnlyLogs-HasBooks _ _ (debug-OnlyLogs P _ _ _) v
      sent_or_failed (err error) = settle-HasBooks id (err error) c v

  send_body-HasBooks :
      (id : ℕ) (item : Item) (op : String) (b : Body) (c : Client Socket)
      → get ℕ_discrete id c.pending ≡ some item
      → item.body ≡ b
      → HasBooks c
      → HasBooks (send_body P id op b c)
  unfolding send_body
  send_body-HasBooks id item op sent c e f v = v
  send_body-HasBooks id item op (queued payload bytes) c e f v =
      if_either HasBooks (c.closed || not (P.is_open c.socket)) (λ shut. settle-HasBooks id _ c v)
        λ open_.
          if_either HasBooks (ltb c.max_buffered_bytes (P.buffered_amount c.socket + bytes))
            (λ full. settle-HasBooks id _ c v)
            λ fits. transmit-HasBooks id op payload _ (rw f at (mark_sent-HasBooks id item c e v))

  pub send_pending-HasBooks :
      (id : ℕ) (c : Client Socket) → HasBooks c → HasBooks (send_pending P id c)
  unfolding send_pending
  send_pending-HasBooks id c v = elim (Option-cases (get ℕ_discrete id c.pending)) [
    | inl e ↦ rw (e, send_pending) v
    | inr (item, e) ↦ rw (e, send_pending) (send_body-HasBooks id item item.op item.body c e refl v)
  ]

  pub send_all-HasBooks :
      (ids : List ℕ) (c : Client Socket) → HasBooks c → HasBooks (send_all P ids c)
  unfolding send_all
  send_all-HasBooks [] c v = v
  send_all-HasBooks (id ∷ ids) c v = send_all-HasBooks ids _ (send_pending-HasBooks id c v)

  pub finish-HasBooks :
      (error : Error) (c : Client Socket) → HasBooks c → HasBooks (finish P error c)
  unfolding finish
  finish-HasBooks error c v =
      if_either HasBooks c.closed (λ e. v)
        λ e.
          OnlyLogs-HasBooks _ _ (debug-OnlyLogs P _ _ _)
            (settle_all-HasBooks (keys c.pending) error _ v)

  pub fail-HasBooks : (error : Error) (c : Client Socket) → HasBooks c → HasBooks (fail P error c)
  unfolding fail
  fail-HasBooks error c v =
      if_either HasBooks c.closed (λ e. v)
        λ e. OnlyLogs-HasBooks _ _ (report-OnlyLogs error _) (finish-HasBooks error c v)

  pub close-HasBooks : (c : Client Socket) → HasBooks c → HasBooks (close P c)
  unfolding close
  close-HasBooks c v = finish-HasBooks socket_closed c v
