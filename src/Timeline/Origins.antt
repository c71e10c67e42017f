-- ===== src/Timeline/Origins.antt =====
-- What holds of the rows that are there and of a new row holds of all rows after an operation
-- (priv/ui/js/timeline.js).
use wiregrid.Base.{
  ℕ, String, ◌≡◌, sym, subst, Option, none, some, [], ◌∷◌, All, All-append, if_either, ite, suc,
  length, ltb, String_discrete, Option-cases, inl, inr,
}
use wiregrid.Base.JsMap.{JsMap, get, All-delete}
use wiregrid.Timeline.Types.{Node, Message, Layout, Timeline}
use wiregrid.Timeline.Index.{same_text, forget, detach}
use wiregrid.Timeline.Ops.{render, upsert, clear, destroy}
use wiregrid.Timeline.Rows.{rename_all}
use wiregrid.Timeline.Eviction.{newest}
use wiregrid.Timeline.Duplicates.{others, entered, chosen, pointed}
use wiregrid.Timeline.Upserts.{upsert-Row}
use wiregrid.Timeline.Kept.{after, upsert_dead}
use wiregrid.Timeline.Runs.{
  Operation, upserted, removed, cleared, torn_down, operate, Whole, FreshAt, remove_missing,
  remove_present,
}

module _ {A : Type 0} (P : Node A → Type 0) where
  abbrev pub Rows : Timeline A → Type 0
  Rows t = All (λ (e : String × Node A). P e.1) t.messages

  abbrev Entries : JsMap String (Node A) → Type 0
  Entries l = All (λ (e : String × Node A). P e.1) l

  others-Entries :
      (target old_id : Option String) (l : JsMap String (Node A))
      → Entries l
      → Entries (others target old_id l)
  others-Entries none old_id l h = h
  others-Entries (some id) old_id l h =
      if_either Entries (same_text (some id) old_id) (λ _. h)
        (λ _. All-delete String_discrete (λ e. P e.1) id l h)

  rename_all-Entries :
      (l : JsMap String (Node A)) (j : String) (node : Node A)
      → P node
      → Entries l
      → Entries (rename_all l j node)
  unfolding rename_all
  rename_all-Entries [] j node p h = tt
  rename_all-Entries ((k, v) ∷ l) j node p h =
      (renamed (String_discrete k j), rename_all-Entries l j node p h.1)
    where
      renamed : (d : Dec (k ≡ j)) → P (ite {C = String × Node A} d (node.message_id, node) (k, v)).1
      renamed (yes e) = p
      renamed (no e) = h.0

  entered-Entries :
      (place : Option String) (node : Node A) (l : JsMap String (Node A))
      → P node
      → Entries l
      → Entries (entered place node l)
  entered-Entries none node l p h =
      All-append (λ (e : String × Node A). P e.1) l ((node.message_id, node) ∷ []) h (p, tt)
  entered-Entries (some j) node l p h = rename_all-Entries l j node p h

  newest-Entries : (limit : ℕ) (l : JsMap String (Node A)) → Entries l → Entries (newest limit l)
  newest-Entries limit [] h = tt
  newest-Entries limit (e ∷ l) h =
      if_either Entries (ltb limit (suc (length l))) (λ _. newest-Entries limit l h.1) (λ _. h)

  pub upsert-Rows :
      (layout : Layout A) (uid : String) (message : Message A) (t : Timeline A)
      → Whole t
      → (message.id ≡ none → get String_discrete uid t.messages ≡ none)
      → ((ref : ℕ) → P (render message uid ref))
      → Rows t
      → Rows (after (upsert layout uid message t))
  upsert-Rows layout uid message t (inr v) fresh p h =
      subst (λ r. Rows (after r)) (sym (upsert_dead layout uid message t v.0)) h
  upsert-Rows layout uid message t (inl (v, d, b)) fresh p h =
      let (t', w, how) = upsert-Row layout uid message t v d fresh in
      let left = others-Entries (pointed message t) (chosen message t) t.messages h in
      elim how [
        | inl (r, e, m, bound) ↦
            subst (λ r. Rows (after r)) (sym e)
              (subst Entries (sym m) (
                newest-Entries t.limit _ (
                  entered-Entries (chosen message t) (render message uid t.next_ref) _
                    (p t.next_ref) left)))
        | inr (r, e, m) ↦ subst (λ r. Rows (after r)) (sym e) (subst Entries (sym m) left)
      ]

  -- A row that an operation enters.
  abbrev pub EntersAt : Operation A → Type 0
  EntersAt (upserted uid message) = (ref : ℕ) → P (render message uid ref)
  EntersAt _ = Unit {0}

  pub operate-Rows :
      (layout : Layout A) (e : Operation A) (t : Timeline A)
      → Whole t
      → FreshAt e t
      → EntersAt e
      → Rows t
      → Rows (operate layout e t)
  unfolding operate clear destroy detach forget
  operate-Rows layout (upserted uid message) t v f p h = upsert-Rows layout uid message t v f p h
  operate-Rows layout (removed id) t v f p h =
      elim (Option-cases (get String_discrete id t.messages)) [
        | inl e ↦ subst Rows (sym (remove_missing id t e)) h
        | inr (node, e) ↦
            subst Rows (sym (remove_present id node t e))
              (All-delete String_discrete (λ e. P e.1) id t.messages h)
      ]
  operate-Rows layout cleared t v f p h = tt
  operate-Rows layout torn_down t v f p h = tt
