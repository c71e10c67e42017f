-- ===== src/Client/Frames.antt =====
-- What the callbacks of the client (priv/ui/js/client.js) leave alone: all but the log, in which no
-- request is sent.
use wiregrid.Base.{String, ◌≡◌, refl, Option, List, [], ◌∷◌, Option-cases, inl, inr, if_either}
use wiregrid.Client.Types.{
  Error, Notice, Platform, Effect, notified, reported, request_sent, Client,
}
use wiregrid.Client.Core.{report, notify, debug}

-- The payloads of the requests that were sent, the newest first.
unfoldable pub sends : List Effect → List String
sends [] = []
sends (request_sent payload ∷ log) = payload ∷ sends log
sends (_ ∷ log) = sends log

-- `d` is `c` but for the log, and the same requests have been sent.
abbrev pub OnlyLogs : {S : Type 0} → Client S → Client S → Type 0
OnlyLogs c d = (log : _) × (d ≡ record c { log = log }) × (sends log ≡ sends c.log)

pub report-OnlyLogs : {S : Type 0} (error : Error) (c : Client S) → OnlyLogs c (report error c)
unfolding report sends
report-OnlyLogs error c = (reported error ∷ c.log, refl, refl)

module _ (P : Platform) where
  open P use {Socket}

  pub notify-OnlyLogs : (n : Notice) (c : Client Socket) → OnlyLogs c (notify P n c)
  unfolding notify sends
  notify-OnlyLogs n c = elim (Option-cases (P.react n)) [
    | inl e ↦ (notified n ∷ c.log, rw (e, notify), refl)
    | inr (error, e) ↦ (reported error ∷ notified n ∷ c.log, rw (e, notify), refl)
  ]

  pub debug-OnlyLogs :
      (event : String) (op : Option String) (c : Client Socket) → OnlyLogs c (debug P event op c)
  unfolding debug
  debug-OnlyLogs event op c =
      if_either (OnlyLogs c) c.has_debug (λ e. notify-OnlyLogs _ c) (λ e. (c.log, refl, refl))
