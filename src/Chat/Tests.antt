-- ===== src/Chat/Tests.antt =====
-- A rendered message, and the theorems at it (priv/ui/js/chat.js).
use wiregrid.Base.{
  ◌≡◌, refl, true, none, some, List, [], ◌∷◌, All, or_else, map, String, ◌≤◌, length, arith,
  String_discrete, ℕ_discrete,
}
use wiregrid.Base.Units.{Units, codes, same_units}
use wiregrid.Core.{clamp}
use wiregrid.Timeline.Types.{Node, row, other, Message, positive}
use wiregrid.Timeline.Dom.{rows, remove_node, replace_node}
use wiregrid.Timeline.Index.{row_limit, same_text}
use wiregrid.Timeline.Ops.{render}
use wiregrid.Chat.Rows.{
  Board, Change, appended, upserted, reconciled, has_id, has_nonce, find_node, remove_first,
  trim_timeline, put_node, append_message, upsert_message, reconcile_optimistic, change, change_all,
}
use wiregrid.Chat.Latest.{HasRefs, list_all}
use wiregrid.Chat.Places.{change_all-list_all, change-bounded}
use wiregrid.Chat.Jumping.{Page, jump_called, timer_fired, page_run}
use wiregrid.Chat.Marks.{Ends, page_run-Ends}
use wiregrid.Chat.Elements.{Head, text, Everywhere, has_class}
use wiregrid.Chat.Message.{
  Reply, Reaction, ChatMessage, usual, actions_of, article, render_message, render_reaction,
  reply_text, truthy,
}
use wiregrid.Chat.Clicks.{
  jumped, reacted, acted, Handlers, on_click, handle_others, call_handler, closest_data,
  closest_message,
}
use wiregrid.Chat.Pressed.{Concerns, click-Concerns}
use wiregrid.Chat.Reached.{Clickable, all-Clickable}

abbrev liked : Reaction
liked = record { emoji = some (codes "+1"); count = some (codes "2"); mine = true }

abbrev quoted : Reply
quoted = record { id = some (codes "m0"); author = some (codes "Ada"); body = some (codes "hi") }

abbrev greeting : ChatMessage
greeting = record {
  id = some (codes "m1");
  nonce = none;
  compact = true;
  avatar_url = some (codes "a.png");
  author = none;
  time = some (codes "12:00");
  body = some (codes "hello");
  reply = some quoted;
  reactions = some (liked ∷ []);
}

abbrev list_element : Head
list_element = text "div" [] ("wg-messages" ∷ [])

abbrev both : Handlers
both = record { reaction = true; action = true }

quoted_text : reply_text quoted ≡ codes "Ada: hi"
unfolding reply_text truthy
quoted_text = refl

liked_click :
    on_click both (render_reaction liked ∷ article [] greeting ∷ list_element ∷ [])
    ≡ reacted (codes "+1") (some (article [] greeting)) ∷ []
unfolding on_click handle_others call_handler closest_data closest_message has_class same_units
    article render_reaction
liked_click = refl

click-Concerns_example :
    Everywhere
      (λ path. All (Concerns [] usual greeting) (on_click both path))
      (list_element ∷ [])
      (render_message [] usual greeting)
click-Concerns_example =
    click-Concerns both [] usual greeting (list_element ∷ []) ((refl, refl, refl), tt)

all-Clickable_example :
    (both.action ≡ true
      → All
          (λ a.
            Clickable both [] usual greeting
              (list_element ∷ [])
              ((refl, refl, refl), tt)
              (acted a (some (article [] greeting))))
          (actions_of usual))
    × (both.reaction ≡ true
        → (l : List Reaction) → greeting.reactions ≡ some l
        → All
            (λ (r : Reaction).
              Clickable both [] usual greeting
                (list_element ∷ [])
                ((refl, refl, refl), tt)
                (reacted (or_else r.emoji []) (some (article [] greeting))))
            l)
    × ((reply : Reply) (id : Units)
        → greeting.reply ≡ some reply
        → reply.id ≡ some id
        → Clickable both [] usual greeting (list_element ∷ []) ((refl, refl, refl), tt) (jumped id))
all-Clickable_example =
    all-Clickable both [] usual greeting (list_element ∷ []) ((refl, refl, refl), tt)

abbrev local : Node String
local = record { ref = 1; message_id = "local"; nonce = some "n1"; content = "hello" }

abbrev board : Board String
board = record { children = other 7 ∷ row local ∷ []; next_ref = 2 }

abbrev stored : Message String
stored = record { id = some "m1"; nonce = none; content = "hello" }

board-HasRefs : HasRefs board
unfolding rows
board-HasRefs = ((tt, tt), (omega arith, tt))

abbrev changes : List (String × Change String)
changes =
    ("u1", reconciled (some "n1") stored) ∷ ("u2", appended stored) ∷ ("u3", upserted stored) ∷ []

-- The optimistic row is replaced, and the limit of one row drops the others.
last_ref :
    map (λ (n : Node String). n.ref) (rows (change_all (positive 1) changes board).children)
    ≡ 4 ∷ []
unfolding change_all change append_message upsert_message reconcile_optimistic trim_timeline
    remove_first put_node find_node has_id has_nonce render rows row_limit clamp remove_node
    replace_node same_text String_discrete ℕ_discrete
last_ref = refl

change_all-list_all_example :
    rows (change_all (positive 1) changes board).children
    ≡ list_all (row_limit (positive 1)) 2 changes (rows board.children)
change_all-list_all_example = change_all-list_all (positive 1) changes board board-HasRefs

change-bounded_example :
    (1 ≤ row_limit (positive 1))
    × (row_limit (positive 1) ≤ 20000)
    × (length (rows (change (positive 1) "u2" (appended stored) board).children)
        ≤ row_limit (positive 1))
change-bounded_example = change-bounded (positive 1) "u2" (appended stored) board board-HasRefs

abbrev page : Page String
page = record {
  children = board.children;
  highlighted = [];
  focused = none;
  scrolled = [];
  timers = [];
}

page_run-Ends_example :
    Ends (
      page_run
        (jump_called "local" (some 900) ∷ jump_called "local" (some 900) ∷ timer_fired 0 ∷ [])
        page)
    × ((page_run
            (jump_called "local" (some 900) ∷ jump_called "local" (some 900) ∷ timer_fired 0 ∷ [])
            page).timers
          ≡ []
        → (page_run
            (jump_called "local" (some 900) ∷ jump_called "local" (some 900) ∷ timer_fired 0 ∷ [])
            page).highlighted
          ≡ [])
page_run-Ends_example =
    page_run-Ends
      (jump_called "local" (some 900) ∷ jump_called "local" (some 900) ∷ timer_fired 0 ∷ []) page
      refl
