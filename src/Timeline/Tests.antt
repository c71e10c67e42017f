-- ===== src/Timeline/Tests.antt =====
-- A timeline with an optimistic row, and the theorems at it (priv/ui/js/timeline.js).
use wiregrid.Base.{
  ◌⊎◌, List, ◌≤◌, ◌≡◌, refl, ap, ◌≢◌, ◌↔◌, String, none, some, [], ◌∷◌, arith, true, false, length,
  String_discrete,
}
use wiregrid.Base.JsMap.{get}
use wiregrid.Timeline.Types.{
  positive, Child, Node, row, other, Message, Layout, returned, thrown, Timeline,
}
use wiregrid.Timeline.Dom.{rows}
use wiregrid.Timeline.Index.{create}
use wiregrid.Timeline.Ops.{render, upsert, remove}
use wiregrid.Timeline.Inv.{HasInv}
use wiregrid.Timeline.Starting.{create-HasInv}
use wiregrid.Timeline.Eviction.{remove-Row}
use wiregrid.Timeline.Runs.{
  Operation, upserted, removed, cleared, torn_down, operate_all, torn, Alive, Dead, Fresh, FreshAt,
  operate_all-Whole,
}
use wiregrid.Timeline.Index.{same_text}
use wiregrid.Timeline.Rows.{rename_all}
use wiregrid.Timeline.Upserts.{upsert-Row}

abbrev optimistic : Node String
optimistic = record { ref = 1; message_id = "local"; nonce = some "n1"; content = "hello" }

abbrev screen : Layout String
screen = record { scroll_height = length; client_height = 0; renders = λ m. true }

abbrev one_row : Timeline String
one_row = record {
  limit = 2;
  auto_scroll = true;
  children = other 7 ∷ row optimistic ∷ [];
  scroll_top = 0;
  role = some "log";
  aria_live = some "polite";
  previous_role = none;
  previous_live = none;
  messages = ("local", optimistic) ∷ [];
  nonces = ("n1", "local") ∷ [];
  destroyed = false;
  next_ref = 2;
}

one_row-HasInv : HasInv one_row
unfolding rows get String_discrete
one_row-HasInv = record {
  indexed = refl;
  ids = (tt, tt);
  refs = (tt, tt);
  older = (omega arith, tt);
  linked = λ q j h. elim (String_discrete "n1" q) [
    | yes p ↦ let same : "local" ≡ j = ground arith in (optimistic, rw (← same) refl, ap some p)
    | no p ↦ absurd (ground arith)
  ];
}

abbrev delivered : Message String
delivered = record { id = some "m1"; nonce = some "n1"; content = "hello" }

upsert-Row_example :
    (t' : Timeline String) × HasInv t'
    × (((true ≡ true)
          × (upsert screen "uid" delivered one_row ≡ returned t')
          × (t'.messages ≡ ("m1", render delivered "uid" 2) ∷ [])
          × (length t'.messages ≤ 2))
        ⊎ ((true ≡ false)
            × (upsert screen "uid" delivered one_row ≡ thrown t')
            × (t'.messages ≡ one_row.messages)))
unfolding get String_discrete rename_all same_text render
upsert-Row_example =
    upsert-Row screen "uid" delivered one_row one_row-HasInv refl (λ e. absurd (ground arith))

remove-Row_example :
    HasInv (remove "local" one_row).0
    × (get String_discrete "local" (remove "local" one_row).0.messages ≡ none)
    × (((remove "local" one_row).1 ≡ false) ↔ (get String_discrete "local" one_row.messages ≡ none))
    × ((other_id : String)
        → other_id ≢ "local"
        → get String_discrete other_id (remove "local" one_row).0.messages
          ≡ get String_discrete other_id one_row.messages)
remove-Row_example = remove-Row "local" one_row one_row-HasInv

-- The server rendered one message twice.
abbrev again : Node String
again = record { ref = 0; message_id = "local"; nonce = none; content = "hello" }

abbrev rendered : List (Child String)
rendered = row again ∷ other 7 ∷ row optimistic ∷ []

create-HasInv_example :
    HasInv (create (positive 2) true rendered none none 0 2)
    × (1 ≤ (create (positive 2) true rendered none none 0 2).limit)
    × ((create (positive 2) true rendered none none 0 2).limit ≤ 20000)
    × (length (rows (create (positive 2) true rendered none none 0 2).children)
        ≤ (create (positive 2) true rendered none none 0 2).limit)
unfolding rows
create-HasInv_example =
    create-HasInv (positive 2) true rendered none none 0 2 (((λ e. omega arith), tt), (tt, tt))
      (omega arith, (omega arith, tt))

abbrev calls : List (Operation String)
calls = upserted "uid" delivered ∷ removed "local" ∷ cleared ∷ torn_down ∷ []

calls-Fresh : Fresh screen calls (create (positive 2) true rendered none none 0 2)
calls-Fresh = ((λ e. absurd (ground arith)), (tt, (tt, (tt, tt))))

operate_all-Whole_example :
    let t = operate_all screen calls (create (positive 2) true rendered none none 0 2) in
    (torn calls ≡ false
      → Alive t
        × ((uid : String) (message : Message String)
            → FreshAt (upserted uid message) t
            → (t' : Timeline String) × (upsert screen uid message t ≡ returned t')))
    × (torn calls ≡ true
        → Dead t
          × ((uid : String) (message : Message String) → upsert screen uid message t ≡ thrown t))
unfolding rows
operate_all-Whole_example =
    operate_all-Whole screen (positive 2) true rendered none none 0 2 calls
      (((λ e. omega arith), tt), (tt, tt)) (omega arith, (omega arith, tt)) calls-Fresh
