-- ===== src/Timeline/Upserts.antt =====
-- Where `upsert` places its row, and what it leaves (priv/ui/js/timeline.js).
use wiregrid.Base.{
  ap, ap₂, Bool-cases, ◌-◌, true, if◌then◌else◌, ℕ, suc, ◌≤◌, ◌≡◌, refl, sym, ◌∙◌, subst, String,
  ◌≢◌, Option, none, some, arith, if_pos, if_neg, if_either, String_discrete, false, Bool, length,
  inl, inr, ◌⊎◌, ◌&&◌,
}
use wiregrid.Base.JsMap.{JsMap, set_new, get, get-set_self, Avoids_of_none}
use wiregrid.Timeline.Types.{Node, Message, Layout, returned, thrown, Timeline}
use wiregrid.Timeline.Dom.{replace_node}
use wiregrid.Timeline.Index.{trim, remember}
use wiregrid.Timeline.Ops.{
  nonce_target, old_id_of, find_row, drop_duplicate, place_row, replace_row, append_row, update_row,
  rename_row, follow, at_bottom, render, upsert,
}
use wiregrid.Timeline.Inv.{Inv, HasInv}
use wiregrid.Timeline.Eviction.{trim-HasInv, trim-limit, trim-newest, newest}
use wiregrid.Timeline.Placing.{append_row-HasInv, update_row-HasInv}
use wiregrid.Timeline.Renaming.{
  rename_row-HasInv, rename_row-messages, rename_row-keeps, get-rename_all_self,
}
use wiregrid.Timeline.Duplicates.{
  pointed, chosen, others, entered, pointed_target, chosen_old, set_renamed, drop_duplicate-Dropped,
  target_there, old_id_cases,
}

module _ {A : Type 0} where
  -- What placing a row leaves.
  record Placed (old_id : Option String) (node : Node A) (t u : Timeline A) : Type 0 where
    inv : HasInv u
    messages : u.messages ≡ entered old_id node t.messages
    there : get String_discrete node.message_id u.messages ≡ some node
    limit_kept : u.limit ≡ t.limit

  append_row-Placed :
      (node : Node A) (t : Timeline A)
      → HasInv t
      → node.ref ≡ t.next_ref
      → get String_discrete node.message_id t.messages ≡ none
      → Placed none node t (append_row node (record t { next_ref = suc t.next_ref }))
  unfolding append_row remember
  append_row-Placed node t v f e = record {
    inv = append_row-HasInv node t v e f;
    messages = set_new String_discrete node.message_id node t.messages e;
    there = get-set_self String_discrete node.message_id node t.messages;
    limit_kept = refl;
  }

  update_row-Placed :
      (old node : Node A) (t : Timeline A)
      → HasInv t
      → node.ref ≡ t.next_ref
      → get String_discrete node.message_id t.messages ≡ some old
      → Placed
          (some node.message_id)
          node
          t
          (replace_row node.message_id old node (record t { next_ref = suc t.next_ref }))
  unfolding replace_row update_row
  update_row-Placed old node t v f e =
      subst
        (λ (u : Timeline A).
          Placed (some node.message_id) node t
            (record u { children = replace_node old.ref node u.children }))
        (sym (if_pos (String_discrete node.message_id node.message_id) refl _ _))
        (record {
          inv = update_row-HasInv old node t v e f;
          messages = set_renamed node.message_id old node t.messages v.ids refl e;
          there = get-set_self String_discrete node.message_id node t.messages;
          limit_kept = refl;
        })

  rename_row-Placed :
      (old_id : String) (old node : Node A) (t : Timeline A)
      → HasInv t
      → node.ref ≡ t.next_ref
      → get String_discrete old_id t.messages ≡ some old
      → get String_discrete node.message_id t.messages ≡ none
      → Placed
          (some old_id)
          node
          t
          (replace_row old_id old node (record t { next_ref = suc t.next_ref }))
  unfolding replace_row
  rename_row-Placed old_id old node t v f e fresh =
      let start = record t { next_ref = suc t.next_ref } in
      let u = rename_row old_id old node start in
      let apart : old_id ≢ node.message_id = λ p. ground arith in
      let same : u.children ≡ t.children =
        rename_row-keeps (λ s. s.children) old_id old node start (λ s m ns. refl) in
      let next : u.next_ref ≡ suc t.next_ref =
        rename_row-keeps (λ s. s.next_ref) old_id old node start (λ s m ns. refl) in
      let known = rename_row-HasInv old_id old node start t.next_ref v e fresh f in
      subst
        (λ (w : Timeline A).
          Placed (some old_id) node t
            (record w { children = replace_node old.ref node w.children }))
        (sym (if_neg (String_discrete old_id node.message_id) apart _ _))
        (record {
          inv =
              subst (λ c. Inv (replace_node old.ref node c) u.messages u.nonces u.next_ref)
                (sym same)
                (subst (λ n. Inv (replace_node old.ref node t.children) u.messages u.nonces n)
                  (sym next) known);
          messages = rename_row-messages old_id old node start v.ids fresh;
          there = rw (rename_row-messages old_id old node start v.ids fresh) (
              get-rename_all_self old_id node old t.messages
                (Avoids_of_none String_discrete node.message_id t.messages fresh) e);
          limit_kept = rename_row-keeps (λ s. s.limit) old_id old node start (λ s m ns. refl);
        })

  place_row-Placed :
      (old_id : Option String) (node : Node A) (t : Timeline A)
      → HasInv t
      → node.ref ≡ t.next_ref
      → ((n : Node A) × (old_id ≡ some node.message_id)
          × (get String_discrete node.message_id t.messages ≡ some n))
        ⊎ ((get String_discrete node.message_id t.messages ≡ none)
            × ((j : String)
                → old_id ≡ some j
                → (n : Node A) × (get String_discrete j t.messages ≡ some n)))
      → Placed old_id node t
          (place_row old_id node (record t { next_ref = suc t.next_ref }) (find_row old_id t))
  unfolding place_row find_row
  place_row-Placed none node t v f (inl (n, p, e)) = absurd (ground arith)
  place_row-Placed none node t v f (inr (e, h)) = append_row-Placed node t v f e
  place_row-Placed (some j) node t v f (inl (n, p, e)) =
      let same : j ≡ node.message_id = ground arith in
      rw (same, e) (update_row-Placed n node t v f e)
  place_row-Placed (some j) node t v f (inr (e, h)) =
      let (n, there) = h j refl in rw there (rename_row-Placed j n node t v f there e)

  -- What `upsert` does once the duplicate is dropped.
  abbrev pub entered_of : Layout A → String → Message A → (t t1 : Timeline A) → Timeline A
  entered_of layout uid message t t1 = follow layout (at_bottom layout t1) (
      trim (
        place_row (old_id_of message t) (render message uid t1.next_ref)
          (record t1 { next_ref = suc t1.next_ref }) (find_row (old_id_of message t) t)))

  pub upsert_of :
      (layout : Layout A) (uid : String) (message : Message A) (t t1 : Timeline A)
      → t.destroyed ≡ false
      → drop_duplicate (nonce_target message.nonce t) (old_id_of message t) t ≡ some t1
      → upsert layout uid message t ≡ (
          if layout.renders message
          then returned (entered_of layout uid message t t1)
          else thrown t1)
  unfolding upsert
  upsert_of layout uid message t t1 d e = rw (upsert, e, d) refl

  -- Scrolling changes neither the rows nor the indexes.
  pub follow-keeps {κ} :
      (P : Timeline A → Type κ) (layout : Layout A) (bottom : Bool) (t : Timeline A)
      → ((top : ℕ) → P (record t { scroll_top = top }))
      → P (follow layout bottom t)
  unfolding follow
  follow-keeps P layout bottom t h =
      if_either P (t.auto_scroll && bottom)
        (λ _. h (layout.scroll_height t.children - layout.client_height)) (λ _. h t.scroll_top)

  -- What is in the index after `upsert` of a message with a row, and of one that `renderMessage`
  -- throws at.
  abbrev pub after_upsert : String → Message A → Timeline A → JsMap String (Node A)
  after_upsert uid message t = newest t.limit (
      entered (chosen message t) (render message uid t.next_ref)
        (others (pointed message t) (chosen message t) t.messages))

  abbrev pub after_throw : Message A → Timeline A → JsMap String (Node A)
  after_throw message t = others (pointed message t) (chosen message t) t.messages

  -- Of a timeline that is not destroyed and whose indexes agree with its document, with the id that
  -- `uid` would make new if the message has none: `upsert` throws exactly if `renderMessage` does.
  -- The row of the nonce is taken away, if the message's id has a row already. If `upsert` does not
  -- throw, the new row takes the place of the row of the message's id, or of its nonce, or the last
  -- place, and the newest rows that the limit allows stay. Either way the indexes agree with the
  -- document afterwards.
  pub upsert-Row :
      (layout : Layout A) (uid : String) (message : Message A) (t : Timeline A)
      → HasInv t
      → t.destroyed ≡ false
      → (message.id ≡ none → get String_discrete uid t.messages ≡ none)
      → (t' : Timeline A) × HasInv t'
        × (((layout.renders message ≡ true)
              × (upsert layout uid message t ≡ returned t')
              × (t'.messages ≡ after_upsert uid message t)
              × (length t'.messages ≤ t.limit))
            ⊎ ((layout.renders message ≡ false)
                × (upsert layout uid message t ≡ thrown t')
                × (t'.messages ≡ after_throw message t)))
  unfolding render find_row
  upsert-Row layout uid message t v d h =
      let old_id = old_id_of message t in
      let target = nonce_target message.nonce t in
      let (t1, e, dropped) =
        drop_duplicate-Dropped target old_id t v (λ j p. target_there message.nonce t j v p) in
      let lost : t1.messages ≡ after_throw message t =
        dropped.kept
        ∙ ap₂ (λ a b. others a b t.messages) (pointed_target message t) (chosen_old message t) in
      let node = render message uid t1.next_ref in
      let still : (j : String)
          → old_id ≡ some j
          → get String_discrete j t1.messages ≡ get String_discrete j t.messages =
        λ j p. subst (λ o. find_row o t1 ≡ find_row o t) p dropped.found in
      let how : ((n : Node A) × (old_id ≡ some node.message_id)
            × (get String_discrete node.message_id t1.messages ≡ some n))
          ⊎ ((get String_discrete node.message_id t1.messages ≡ none)
              × ((j : String)
                  → old_id ≡ some j
                  → (n : Node A) × (get String_discrete j t1.messages ≡ some n))) =
        elim (old_id_cases uid message t h) [
          | inl (n, p, g) ↦ inl (n, p, still node.message_id p ∙ g)
          | inr (g, p) ↦ inr (
            dropped.absent node.message_id g,
            λ j q.
                let (n, there) = target_there message.nonce t j v (sym p ∙ q) in
                (n, still j q ∙ there),
          )
        ] in
      let u =
        place_row old_id node (record t1 { next_ref = suc t1.next_ref }) (find_row old_id t) in
      let placed : Placed old_id node t1 u =
        subst
          (λ o.
            Placed old_id node t1
              (place_row old_id node (record t1 { next_ref = suc t1.next_ref }) o))
          dropped.found (place_row-Placed old_id node t1 dropped.inv refl how) in
      let bound = trim-limit u in
      let t' = entered_of layout uid message t t1 in
      let node_same : node ≡ render message uid t.next_ref =
        ap (render message uid) dropped.next_kept in
      let listed : u.messages
          ≡ entered (chosen message t) (render message uid t.next_ref) (after_throw message t) =
        placed.messages
        ∙ (ap₂ (λ o n. entered o n t1.messages) (chosen_old message t) node_same
            ∙ ap (entered (chosen message t) (render message uid t.next_ref)) lost) in
      let limits : u.limit ≡ t.limit = placed.limit_kept ∙ dropped.limit_kept in
      let shown : (trim u).messages ≡ after_upsert uid message t =
        trim-newest u placed.inv.ids ∙ ap₂ newest limits listed in
      let how_it_ends = upsert_of layout uid message t t1 d e in
      elim (Bool-cases (layout.renders message)) [
        | inl r ↦ (
          t',
          follow-keeps HasInv layout (at_bottom layout t1) (trim u)
              (λ top. trim-HasInv u placed.inv),
          inl (
            r,
            how_it_ends ∙ ap (λ b. if b then returned t' else thrown t1) r,
            follow-keeps (λ w. w.messages ≡ after_upsert uid message t) layout (at_bottom layout t1)
                (trim u) (λ top. shown),
            follow-keeps (λ w. length w.messages ≤ t.limit) layout (at_bottom layout t1) (trim u)
                (λ top. omega (arith, bound.0, bound.1, limits)),
          ),
        )
        | inr r ↦ (
          t1,
          dropped.inv,
          inr (r, how_it_ends ∙ ap (λ b. if b then returned t' else thrown t1) r, lost),
        )
      ]
