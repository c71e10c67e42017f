-- ===== src/Mount/Tests.antt =====
-- A mounted chat, and the theorems at it (priv/ui/js/mount.js).
use text.Mathlib.Text.{◌==◌ as str_eq}
use wiregrid.Base.{
  ap, ℕ, String, ◌≡◌, refl, ◌≢◌, true, false, none, some, List, [], ◌∷◌, ◌++◌, length, arith,
}
use wiregrid.Base.Units.{codes, same_units}
use wiregrid.Json.{Json, str}
use wiregrid.Site.Keywords.{any_same}
use wiregrid.Client.Types.{ok, Platform, Client}
use wiregrid.Client.Options.{absent, positive, read_limits, start, connect}
use wiregrid.Client.Call.{subscribe}
use wiregrid.Client.Steps.{opened, called as command_called, step}
use wiregrid.Timeline.Types.{Message, Layout, falsy}
use wiregrid.Timeline.Ops.{upsert}
use wiregrid.Timeline.Kept.{after}
use wiregrid.Composer.Types.{called}
use wiregrid.Mount.Topic.{
  split_colon, all_digits, is_number, big_int, numbered_key, has_parts, topic_key,
}
use wiregrid.Mount.Types.{
  Envelope, shown, Mount, fulfilled, mounted, MountEvent, client_event, arrived, ready_resolved,
  composer_event, ended,
}
use wiregrid.Mount.Ops.{
  MountOptions, text_or, default_message, message_of, new_chat, mount_chat, mount_step, mount_run,
}
use wiregrid.Mount.Parts.{torn, Fresh, IsSound}
use wiregrid.Mount.Sound.{mount_chat-IsSound}
use wiregrid.Mount.Spelling.{topic_key_bare, topic_key_numbered}

abbrev browser : Platform
browser = record {
  Socket = ℕ;
  is_open = λ w. true;
  buffered_amount = λ w. w;
  send = λ w payload. ok w;
  close = λ w. w;
  stringify = λ j. ok "request";
  parse = λ s. ok Json.null;
  decode = λ bytes. "ready";
  byte_length = λ s. 20;
  react = λ n. none;
}

abbrev page_options : MountOptions String
page_options = record {
  has_url = true;
  map_message = none;
  composer = record {
    bytes = λ s. 5;
    blank = λ s. false;
    height = λ s. 20;
    max_bytes = none;
    max_height = none;
    enter_to_send = true;
    handles = true;
  };
  settings = record {
    max_pending = absent;
    request_timeout_ms = absent;
    connect_timeout_ms = absent;
    max_buffered_bytes = absent;
    has_debug = false;
  };
  max_messages = falsy;
  auto_scroll = true;
}

abbrev screen : Layout String
screen = record { scroll_height = length; client_height = 0; renders = λ m. true }

abbrev fresh_client : Client ℕ
fresh_client = start false 0 (record {
  max_pending = 256;
  request_timeout = 10000;
  connect_timeout = 10000;
  max_buffered_bytes = 1048576;
})

connects : connect page_options.settings 0 ≡ ok fresh_client
unfolding connect read_limits positive
connects = refl

abbrev greeting : Envelope String
greeting = record {
  topic = "general";
  event = some (record { is_message = true; nonce = none; content = "hello" });
  event_id = some "m1";
  delivery_id = some "d1";
}

abbrev session : List (MountEvent ℕ String)
session =
    client_event opened
    ∷ ready_resolved
    ∷ arrived "uid" greeting
    ∷ composer_event called
    ∷ ended 0 fulfilled
    ∷ []

session-Fresh :
    Fresh browser page_options screen session (new_chat browser page_options "general" fresh_client)
unfolding text_or default_message message_of
session-Fresh = (tt, (tt, ((λ message e n. absurd (ground arith)), (tt, (tt, tt)))))

named : ◌≢◌ {A = String} "general" ""
named e = let same : false ≡ true = ap (λ s. str_eq s "") e in absurd (ground arith)

abbrev after_session : Mount ℕ String
after_session =
    mount_run browser page_options screen session
      (new_chat browser page_options "general" fresh_client)

mount_chat-IsSound_example :
    (mount_chat browser page_options "general" 0
      ≡ mounted (new_chat browser page_options "general" fresh_client))
    × IsSound browser page_options fresh_client "general" session false after_session
    × (torn session ≡ false
        → ((uid : String) (env : Envelope String) (message : Message String)
            → same_units (topic_key (codes env.topic)) (topic_key (codes "general")) ≡ true
            → message_of page_options env ≡ shown message
            → (mount_step browser page_options screen (arrived uid env) after_session).timeline
              ≡ after (upsert screen uid message after_session.timeline))
          × ((mount_step browser page_options screen ready_resolved after_session).client
              ≡ step browser (command_called (subscribe (str "general"))) after_session.client))
mount_chat-IsSound_example =
    mount_chat-IsSound browser page_options screen fresh_client 0 "general" session connects refl
      named session-Fresh

topic_key_bare_example :
    topic_key (codes "general") ≡ topic_key (codes "channel:" ++ codes "general")
unfolding any_same split_colon same_units is_number
topic_key_bare_example = topic_key_bare (codes "general") refl refl

topic_key_numbered_example :
    (topic_key (codes "room" ++ (codes ":i:" ++ codes "007"))
      ≡ codes "room" ++ (codes ":i:" ++ big_int (codes "007")))
    × (topic_key (topic_key (codes "room" ++ (codes ":i:" ++ codes "007")))
        ≡ topic_key (codes "room" ++ (codes ":i:" ++ codes "007")))
unfolding any_same same_units is_number all_digits
topic_key_numbered_example =
    topic_key_numbered (codes "room") (codes "007") (refl, (refl, (refl, (refl, tt)))) refl refl
      refl

-- Two topics of different kinds have one key.
topics_meet :
    (topic_key (codes "i:7") ≡ codes "channel:i:7")
    × (topic_key (codes "channel:i:7") ≡ codes "channel:i:7")
unfolding any_same split_colon same_units is_number all_digits big_int topic_key numbered_key
    has_parts
topics_meet = (refl, refl)
