-- ===== src/Client/Replies.antt =====
-- What becomes of a pending request (priv/ui/js/client.js): its answer, or its deadline.
use wiregrid.Base.{
  ℕ, ◌≡◌, refl, subst, ◌∙◌, ◌⊎◌, inl, inr, true, false, ◌||◌, none, some, ◌∷◌, arith, if◌then◌else◌,
  ℕ_discrete, if_either, ◌≢◌, String_discrete,
}
use wiregrid.Base.JsMap.{get, has, get-delete_self, get-delete_ne}
use wiregrid.Json.{Json, obj, num, Fields, get_field, is_str, is_str→eq, str}
use wiregrid.Client.Types.{
  response, request_timed_out, Result, ok, err, Frame, Platform, Item, Client,
}
use wiregrid.Client.Core.{settle}
use wiregrid.Client.Message.{frame_text, is_false, on_reply, dispatch, on_value, on_message}
use wiregrid.Client.Steps.{on_request_deadline, step, request_deadline, received}
use wiregrid.Client.Frames.{sends, OnlyLogs, debug-OnlyLogs}
use wiregrid.Client.Books.{HasBooks}
use wiregrid.Client.Deadlines.{find_timer_pending, settle_fired}

-- Request `id` alone is gone from what is pending, and its promise alone is settled.
pub record Settled {S : Type 0} (id : ℕ) (item : Item) (r : Result Json) (c d : Client S)
    : Type 0 where
  pub gone : get ℕ_discrete id d.pending ≡ none
  pub others : (q : ℕ) → q ≢ id → get ℕ_discrete q d.pending ≡ get ℕ_discrete q c.pending
  pub outcome : d.settled ≡ (item.ticket, r) ∷ c.settled
  pub no_send : sends d.log ≡ sends c.log
  pub no_new : d.tickets ≡ c.tickets

settle-Settled :
    {S : Type 0} (id : ℕ) (item : Item) (r : Result Json) (c : Client S)
    → get ℕ_discrete id c.pending ≡ some item
    → Settled id item r c (settle id r c)
unfolding settle
settle-Settled id item r c e =
    rw (e, settle)
      (record {
        gone = get-delete_self ℕ_discrete id c.pending;
        others = λ q h. get-delete_ne ℕ_discrete id q c.pending h;
        outcome = refl;
        no_send = refl;
        no_new = refl;
      })

OnlyLogs-Settled :
    {S : Type 0} (id : ℕ) (item : Item) (r : Result Json) (c d d' : Client S)
    → OnlyLogs d d'
    → Settled id item r c d
    → Settled id item r c d'
OnlyLogs-Settled id item r c d d' (log, e, same) v = rw e (record {
  gone = v.gone;
  others = v.others;
  outcome = v.outcome;
  no_send = same ∙ v.no_send;
  no_new = v.no_new;
})

-- What a message makes of its request: an error message, or one whose `ok` is false, rejects.
abbrev pub answer : Fields → Result Json
answer m =
    if is_str "error" (get_field "type" m) || is_false (get_field "ok" m)
    then err (response (obj m))
    else ok (obj m)

module _ (P : Platform) where
  open P use {Socket}

  on_reply-Settled :
      (m : Fields) (id : ℕ) (item : Item) (c : Client Socket)
      → get_field "id" m ≡ some (num id)
      → get ℕ_discrete id c.pending ≡ some item
      → Settled id item (answer m) c (on_reply P m c)
  unfolding on_reply
  on_reply-Settled m id item c e f =
      rw (e, on_reply)
        (if_either (Settled id item (answer m) c) (has ℕ_discrete id c.pending)
          (λ there.
            OnlyLogs-Settled id item (answer m) c _ _ (debug-OnlyLogs P _ _ _)
              (settle-Settled id item (answer m) c f))
          (λ absent. absurd (ground arith)))

  message_dispatched :
      (frame : Frame) (m : Fields) (c : Client Socket)
      → c.closed ≡ false
      → P.parse (frame_text P frame) ≡ ok (obj m)
      → on_message P frame c ≡ dispatch P m c
  unfolding on_message on_value
  message_dispatched frame m c o p =
      if_either (λ d. d ≡ dispatch P m c) c.closed (λ e. cc) (λ e. rw p)

  response_dispatched :
      (m : Fields) (c : Client Socket)
      → get_field "type" m ≡ some (str "response")
      → dispatch P m c ≡ on_reply P m c
  unfolding dispatch String_discrete
  response_dispatched m c e = rw (e, dispatch) (ground arith)

  error_dispatched :
      (m : Fields) (c : Client Socket)
      → get_field "type" m ≡ some (str "error")
      → c.initialized ≡ true
      → dispatch P m c ≡ on_reply P m c
  unfolding dispatch String_discrete
  error_dispatched m c e i = rw (e, dispatch) (ground arith)

  -- A response to a pending request, that arrives at an open client, settles that request with it
  -- and nothing else; so does an error message once the client is ready.
  pub answered-Settled :
      (frame : Frame) (m : Fields) (id : ℕ) (item : Item) (c : Client Socket)
      → c.closed ≡ false
      → P.parse (frame_text P frame) ≡ ok (obj m)
      → (is_str "response" (get_field "type" m) ≡ true)
        ⊎ ((is_str "error" (get_field "type" m) ≡ true) × (c.initialized ≡ true))
      → get_field "id" m ≡ some (num id)
      → get ℕ_discrete id c.pending ≡ some item
      → Settled id item (answer m) c (step P (received frame) c)
  unfolding step
  answered-Settled frame m id item c o p (inl t) e f =
      rw (message_dispatched frame m c o p, response_dispatched m c (is_str→eq "response" _ t))
        (on_reply-Settled m id item c e f)
  answered-Settled frame m id item c o p (inr (t, i)) e f =
      rw (message_dispatched frame m c o p, error_dispatched m c (is_str→eq "error" _ t) i)
        (on_reply-Settled m id item c e f)

  ticket_timed_out :
      (id : ℕ) (item : Item) (c : Client Socket)
      → HasBooks c
      → get ℕ_discrete id c.pending ≡ some item
      → Settled id item (err request_timed_out) c (on_request_deadline P item.ticket c)
  unfolding on_request_deadline
  ticket_timed_out id item c b e =
      rw (find_timer_pending id item c b e, on_request_deadline)
        (OnlyLogs-Settled id item (err request_timed_out) c _ _ (debug-OnlyLogs P _ _ _) (
          rw (settle_fired id item (err request_timed_out) c e)
            (settle-Settled id item (err request_timed_out) c e)))

  -- When the timer of a pending request fires, the request is rejected as timed out, and nothing
  -- else is settled.
  pub timed_out-Settled :
      (id handle : ℕ) (item : Item) (c : Client Socket)
      → HasBooks c
      → get ℕ_discrete id c.pending ≡ some item
      → item.ticket ≡ handle
      → Settled id item (err request_timed_out) c (step P (request_deadline handle) c)
  unfolding step
  timed_out-Settled id handle item c b e h =
      subst (λ k. Settled id item (err request_timed_out) c (on_request_deadline P k c)) h
        (ticket_timed_out id item c b e)
