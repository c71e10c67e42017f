-- ===== src/Lib.antt =====
-- Wiregrid's browser package (priv/ui/js), its script without modules (priv/ui/wiregrid.js) and the
-- page script of its manual (site/manual.js). An application mounts a chat: a client of the server's
-- socket, a timeline that shows what the client receives, and a composer whose texts the client says.
-- The three parts meet in callbacks and promises only. Each is modelled on its own, and Mount puts
-- the same models together.
--
-- Base has names, tests, lists, Units (texts as UTF-16 units) and JsMap, a Map in insertion order;
-- Json the values on the wire.
--
-- Client (priv/ui/js/client.js, connectChat). Client.Types is the closure's state, with the socket,
--   JSON and UTF-8 as the parameter Platform; Options and OptionsChecked read the options, Seq is the
--   search of a request number, Core has settle, finish, fail, close and sendPending, Message the
--   handler of frames, Call the commands, Steps the events and their runs. A promise is a ticket and
--   its list of settlements. The proofs are in Fresh (numbers), Entries, Frames, Books (the pending
--   map, bytes, timers and promises agree), Phases (what is sent when), Replies, Deadlines, Closed,
--   Enqueued and Requests (what a call leaves).
-- Timeline (priv/ui/js/timeline.js, createTimeline). Types has the state with the children of the
--   container, Dom the changes of the document, Index the two Maps, trim and the start, Ops upsert,
--   remove, clear and destroy. An element has a number, ever larger, as its identity; what it shows,
--   whether renderMessage throws for a message, and the heights are parameters. The proofs are in
--   Rows (document and index), Nonces, Inv, Eviction, Placing, Renaming, Duplicates,
--   Upserts, Kept (what upsert leaves alone), Starting, Runs (all operations) and Origins (where rows
--   come from).
-- Composer (priv/ui/js/composer.js, bindComposer). Types and Ops; a call of submit that awaits a
--   callback is an entry of `waiting`, and the end of the callback is an event. onSubmit is given.
--   The proofs are in Sending (what is sent), Drafts (when the text is cleared) and Ended.
-- Core (priv/ui/js/core.js): clamp, with createStore, whose listeners may throw, in Store
--   and the theme in Theme.
--
-- Mount (priv/ui/js/mount.js, mountChat). Topic is topicKey, Types and Ops the closure's functions on
--   a record that holds a client, a timeline and a composer. An `await` that has not returned is a
--   task, and tasks end in any order; so do the client's callbacks come at any time, which takes in
--   the order that the code keeps. mapMessage may throw, and the application may use the timeline
--   itself. Parts says what each part keeps; the proofs are in Steps, Run, Sound and
--   Spelling.
-- Chat (priv/ui/js/chat.js). Elements has elements as a tree, Message the rendering of a message,
--   Clicks the handler of bindChatActions on the path from the target to the document, Rows the four
--   operations on the rows of a container, for messages that renderMessage renders, Jumping
--   jumpToMessage with its timers and their delays. The proofs are in
--   Buttons, Pressed, Reached, Latest, Places and Marks.
-- Hooks (priv/ui/js/liveview.js). Pushes has the events that the hooks push; the proofs are in
--   Faithful.
-- Overlays (priv/ui/js/overlays.js). Tabs and Overlay, with the proofs in Selecting and Trap. Which
--   elements take the focus, and what the browser does with a Tab key that the overlay leaves to it,
--   are parameters.
-- Global (priv/ui/wiregrid.js). Composer is mountComposer, on the state of the other composer;
--   SameComposer compares the two. Messages has appendMessage and jumpToMessage.
-- Site (site/manual.js). Keywords, Scan and Highlight are the highlighter (proofs in Highlight.Html,
--   Cuts and Shown), Blocks the code blocks and their copy buttons, Search the search (proofs in
--   Search.Hits); `toLowerCase` is a parameter.
--
-- Bounds and fuel: the search of a request number runs on fuel, one round more than there are
-- entries; trim on as many rounds as there are entries; the highlighter on as many rounds as the
-- text has units. All are proved to be enough. Request numbers wrap at 2^32 - 1 as in the code;
-- other numbers are natural numbers, as sizes and counts are.
--
-- Callbacks do not call the part that calls them before they return; what they do later is an event.
-- Not modelled: functions that only call the document (qs, qsa, text, the building of the panel of
-- mountChat and of what the manual's buttons look like), uid, which draws random text, the clipboard,
-- the removal of the click listener, the global script's setTheme and setDensity, which write one
-- data attribute each, and the server, which is written in Elixir.
pub mod Composer
pub mod Base
pub mod Client
pub mod Core
pub mod Json
pub mod Timeline
pub mod Site
pub mod Global
pub mod Overlays
pub mod Mount
pub mod Chat
pub mod Hooks
