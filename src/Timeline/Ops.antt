-- ===== src/Timeline/Ops.antt =====
-- The operations of the object that `createTimeline` returns (priv/ui/js/timeline.js).
use wiregrid.Base.{
  length, ℕ, suc, ◌+◌, ◌-◌, String, Bool, true, false, ◌&&◌, Option, none, some, List, [], ◌∷◌,
  ◌++◌, ite, leb, if◌then◌else◌, String_discrete, or_else,
}
use wiregrid.Base.JsMap.{JsMap, get, has, delete, set, values}
use wiregrid.Timeline.Types.{Node, row, Message, Layout, Attempt, returned, thrown, Timeline}
use wiregrid.Timeline.Dom.{replace_node}
use wiregrid.Timeline.Index.{same_text, remember_nonce, forget, remember, detach, trim}

-- An attribute that was not there before is taken away again.
unfoldable pub restore : Option String → Option String → Option String
restore none now = none
restore (some before) now = now

module _ {A : Type 0} where
  -- `renderMessage`, as far as the timeline reads its result; `uid` is what `uid("message")` would
  -- return.
  unfoldable pub render : Message A → String → ℕ → Node A
  render message uid ref = record {
    ref = ref;
    message_id = or_else message.id uid;
    nonce = message.nonce;
    content = message.content;
  }

  -- `nonces.get(nonce)`, where a null nonce finds nothing.
  unfoldable pub nonce_target : Option String → Timeline A → Option String
  nonce_target none t = none
  nonce_target (some nonce) t = get String_discrete nonce t.nonces

  unfoldable pub old_id_of : Message A → Timeline A → Option String
  old_id_of message t = elim message.id [
    | none ↦ nonce_target message.nonce t
    | some id ↦ if has String_discrete id t.messages then some id else nonce_target message.nonce t
  ]

  unfoldable pub find_row : Option String → Timeline A → Option (Node A)
  find_row none t = none
  find_row (some id) t = get String_discrete id t.messages

  -- The optimistic row of the nonce is dropped if it is not the one to be replaced. `none` is the
  -- TypeError that a nonce without its row would raise.
  unfoldable pub drop_duplicate : Option String → Option String → Timeline A → Option (Timeline A)
  unfolding forget detach
  drop_duplicate none old_id t = some t
  drop_duplicate (some id) old_id t =
      if same_text (some id) old_id then some t else elim (get String_discrete id t.messages) [
        | none ↦ none
        | some duplicate ↦ some (detach duplicate (forget id duplicate t))
      ]

  -- `for (const [key, value] of entries) ...` after a change of id.
  unfoldable pub rebuild : JsMap String (Node A) → String → Node A → Timeline A → Timeline A
  unfolding remember
  rebuild [] old_id node t = t
  rebuild ((key, value) ∷ l) old_id node t = rebuild l old_id node (
      ite (String_discrete key old_id) (remember node t)
        (record t { messages = set String_discrete key value t.messages }))

  -- A row is replaced under its own id.
  unfoldable pub update_row : Node A → Node A → Timeline A → Timeline A
  update_row old node t = record t {
    messages = set String_discrete node.message_id node t.messages;
    nonces =
        remember_nonce node.message_id node.nonce
          (elim old.nonce [ none ↦ t.nonces | some nonce ↦ delete String_discrete nonce t.nonces ]);
  }

  -- A row is replaced under another id, in its place.
  unfoldable pub rename_row : String → Node A → Node A → Timeline A → Timeline A
  unfolding forget
  rename_row old_id old node t =
      let renamed =
        rebuild t.messages old_id node (record (forget old_id old t) { messages = [] }) in
      record renamed { nonces = remember_nonce node.message_id node.nonce renamed.nonces }

  unfoldable pub replace_row : String → Node A → Node A → Timeline A → Timeline A
  replace_row old_id old node t =
      let indexed =
        ite (String_discrete old_id node.message_id) (update_row old node t)
          (rename_row old_id old node t) in
      record indexed { children = replace_node old.ref node indexed.children }

  unfoldable pub append_row : Node A → Timeline A → Timeline A
  unfolding remember
  append_row node t = remember node (record t { children = t.children ++ row node ∷ [] })

  unfoldable pub place_row : Option String → Node A → Timeline A → Option (Node A) → Timeline A
  place_row (some old_id) node t (some old) = replace_row old_id old node t
  place_row _ node t _ = append_row node t

  unfoldable pub at_bottom : Layout A → Timeline A → Bool
  at_bottom layout t =
      leb (layout.scroll_height t.children) (t.scroll_top + layout.client_height + 48)

  -- The browser stops at the end of what there is to scroll.
  unfoldable pub follow : Layout A → Bool → Timeline A → Timeline A
  follow layout bottom t =
      if t.auto_scroll && bottom
      then record t { scroll_top = layout.scroll_height t.children - layout.client_height }
      else t

  -- It throws if the timeline was destroyed, for the TypeError above, and with `renderMessage`.
  unfoldable pub upsert : Layout A → String → Message A → Timeline A → Attempt (Timeline A)
  upsert layout uid message t =
      if t.destroyed
      then thrown t
      else let old_id = old_id_of message t in
        elim (drop_duplicate (nonce_target message.nonce t) old_id t) [
          | none ↦ thrown t
          | some t1 ↦
              let node = render message uid t1.next_ref in
              if layout.renders message
              then returned (
                  follow layout (at_bottom layout t1) (
                    trim (
                      place_row old_id node (record t1 { next_ref = suc t1.next_ref })
                        (find_row old_id t))))
              else thrown t1
        ]

  unfoldable pub remove : String → Timeline A → Timeline A × Bool
  unfolding forget detach
  remove id t = elim (get String_discrete id t.messages) [
    | none ↦ (t, false)
    | some node ↦ (detach node (forget id node t), true)
  ]

  unfoldable pub detach_all : List (Node A) → Timeline A → Timeline A
  unfolding detach
  detach_all [] t = t
  detach_all (node ∷ l) t = detach_all l (detach node t)

  unfoldable pub clear : Timeline A → Timeline A
  clear t = record (detach_all (values t.messages) t) { messages = []; nonces = [] }

  unfoldable pub destroy : Timeline A → Timeline A
  unfolding restore
  destroy t = record t {
    destroyed = true;
    messages = [];
    nonces = [];
    role = restore t.previous_role t.role;
    aria_live = restore t.previous_live t.aria_live;
  }

  unfoldable pub size : Timeline A → ℕ
  size t = length t.messages

  unfoldable pub get_row : String → Timeline A → Option (Node A)
  get_row id t = get String_discrete id t.messages
