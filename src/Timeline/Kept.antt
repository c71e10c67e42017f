-- ===== src/Timeline/Kept.antt =====
-- What `upsert` leaves alone (priv/ui/js/timeline.js).
use wiregrid.Base.{
  true, ℕ, zero, suc, ◌≡◌, refl, ap, ◌∙◌, String, Option, none, some, List, [], ◌∷◌, false, arith,
  if_pos, if_neg, if_either, String_discrete, Option-cases, Bool-cases, inl, inr, ltb, length,
}
use wiregrid.Base.JsMap.{JsMap, get}
use wiregrid.Timeline.Types.{Node, Child, Message, Layout, Attempt, returned, thrown, Timeline}
use wiregrid.Timeline.Dom.{replace_node}
use wiregrid.Timeline.Index.{forget, detach, trim, trim_loop, evict, remember, same_text}
use wiregrid.Timeline.Ops.{
  nonce_target, old_id_of, find_row, drop_duplicate, place_row, replace_row, append_row, update_row,
  rename_row, at_bottom, render, upsert,
}
use wiregrid.Timeline.Upserts.{upsert_of, follow-keeps}
use wiregrid.Timeline.Renaming.{rename_row-keeps}

upsert_throws :
    {A : Type 0} (layout : Layout A) (uid : String) (message : Message A) (t : Timeline A)
    → t.destroyed ≡ false
    → drop_duplicate (nonce_target message.nonce t) (old_id_of message t) t ≡ none
    → upsert layout uid message t ≡ thrown t
unfolding upsert
upsert_throws layout uid message t d e = rw (upsert, e, d) refl

pub upsert_dead :
    {A : Type 0} (layout : Layout A) (uid : String) (message : Message A) (t : Timeline A)
    → t.destroyed ≡ true
    → upsert layout uid message t ≡ thrown t
unfolding upsert
upsert_dead layout uid message t d = rw d refl

-- The timeline after a call, that throws or not.
abbrev pub after : {A : Type 0} → Attempt (Timeline A) → Timeline A
after (returned t) = t
after (thrown t) = t

-- `f` reads only what `upsert` leaves alone.
module _ {A B : Type 0} (f : Timeline A → B)
    (blind : (t : Timeline A) (c : List (Child A)) (m : JsMap String (Node A))
        (n : JsMap String String) (r top : ℕ)
      → f (record t { children = c; messages = m; nonces = n; next_ref = r; scroll_top = top })
        ≡ f t) where
  evict-kept : (l : JsMap String (Node A)) (t : Timeline A) → f (evict l t) ≡ f t
  unfolding evict detach forget
  evict-kept [] t = refl
  evict-kept ((id, node) ∷ l) t = blind t _ _ _ _ _

  trim_loop-kept : (fuel : ℕ) (t : Timeline A) → f (trim_loop fuel t) ≡ f t
  unfolding trim_loop
  trim_loop-kept zero t = refl
  trim_loop-kept (suc fuel) t =
      if_either (λ u. f u ≡ f t) (ltb t.limit (length t.messages))
        (λ _. trim_loop-kept fuel (evict t.messages t) ∙ evict-kept t.messages t) (λ _. refl)

  replace_row-kept :
      (old_id : String) (old node : Node A) (t : Timeline A)
      → f (replace_row old_id old node t) ≡ f t
  unfolding replace_row update_row
  replace_row-kept old_id old node t = elim (String_discrete old_id node.message_id) [
    | yes p ↦
        ap (λ (u : Timeline A). f (record u { children = replace_node old.ref node u.children }))
          (if_pos (String_discrete old_id node.message_id) p _ _)
        ∙ blind t _ _ _ _ _
    | no p ↦
        ap (λ (u : Timeline A). f (record u { children = replace_node old.ref node u.children }))
          (if_neg (String_discrete old_id node.message_id) p _ _)
        ∙ (blind (rename_row old_id old node t) _ _ _ _ _
            ∙ rename_row-keeps f old_id old node t (λ u m n. blind u _ m n _ _))
  ]

  place_row-kept :
      (old_id : Option String) (node : Node A) (t : Timeline A) (old : Option (Node A))
      → f (place_row old_id node t old) ≡ f t
  unfolding place_row append_row remember
  place_row-kept none node t none = blind t _ _ _ _ _
  place_row-kept none node t (some old) = blind t _ _ _ _ _
  place_row-kept (some j) node t none = blind t _ _ _ _ _
  place_row-kept (some j) node t (some old) = replace_row-kept j old node t

  detached-kept : (id : String) (n : Node A) (t : Timeline A) → f (detach n (forget id n t)) ≡ f t
  unfolding detach forget
  detached-kept id n t = blind t _ _ _ _ _

  drop_duplicate-kept :
      (target old_id : Option String) (t t1 : Timeline A)
      → drop_duplicate target old_id t ≡ some t1
      → f t1 ≡ f t
  unfolding drop_duplicate
  drop_duplicate-kept none old_id t t1 e = ap f (ground arith)
  drop_duplicate-kept (some id) old_id t t1 e = elim (Bool-cases (same_text (some id) old_id)) [
    | inl s ↦ ap f (ground (arith, s))
    | inr s ↦ elim (Option-cases (get String_discrete id t.messages)) [
      | inl g ↦ absurd (ground (arith, s, g))
      | inr (n, g) ↦
          let same : t1 ≡ detach n (forget id n t) = ground (arith, s, g) in
          ap f same ∙ detached-kept id n t
    ]
  ]

  pub trim-kept : (t : Timeline A) → f (trim t) ≡ f t
  unfolding trim
  trim-kept t = trim_loop-kept (length t.messages) t

  pub upsert-kept :
      (layout : Layout A) (uid : String) (message : Message A) (t : Timeline A)
      → f (after (upsert layout uid message t)) ≡ f t
  upsert-kept layout uid message t = elim (Bool-cases t.destroyed) [
    | inl d ↦ ap (λ r. f (after r)) (upsert_dead layout uid message t d)
    | inr d ↦
        let old_id = old_id_of message t in
        elim (Option-cases (drop_duplicate (nonce_target message.nonce t) old_id t)) [
          | inl g ↦ ap (λ r. f (after r)) (upsert_throws layout uid message t d g)
          | inr (t1, g) ↦
              let placed =
                place_row old_id (render message uid t1.next_ref)
                  (record t1 { next_ref = suc t1.next_ref }) (find_row old_id t) in
              let dropped = drop_duplicate-kept _ old_id t t1 g in
              ap (λ r. f (after r)) (upsert_of layout uid message t t1 d g)
              ∙ if_either (λ r. f (after r) ≡ f t) (layout.renders message)
                  (λ _.
                    follow-keeps (λ u. f u ≡ f (trim placed)) layout (at_bottom layout t1)
                      (trim placed) (λ top. blind (trim placed) _ _ _ _ top)
                    ∙ (trim-kept placed
                        ∙ (place_row-kept old_id _ _ _ ∙ (blind t1 _ _ _ _ _ ∙ dropped))))
                  (λ _. dropped)
        ]
  ]
