-- ===== src/Timeline/Inv.antt =====
-- What holds of a timeline between operations: the indexes agree with the document
-- (priv/ui/js/timeline.js).
use wiregrid.Base.{
  ℕ, ◌<◌, ◌≡◌, sym, ap, ◌∙◌, subst, String, some, List, [], ◌∷◌, if_pos, if_neg, String_discrete,
  ℕ_discrete, All,
}
use wiregrid.Base.JsMap.{JsMap, Distinct, get, delete, delete-Distinct}
use wiregrid.Timeline.Types.{Node, Child, Timeline}
use wiregrid.Timeline.Dom.{rows}
use wiregrid.Timeline.Index.{forget, detach}
use wiregrid.Timeline.Rows.{index, DistinctRefs, drop_ref, rows-remove_node, index-drop_ref}
use wiregrid.Timeline.Nonces.{Linked, forget-Linked}

module _ {A : Type 0} where
  pub record Inv (children : List (Child A)) (messages : JsMap String (Node A))
      (nonces : JsMap String String) (next_ref : ℕ) : Type 0 where
    -- The index has the rows of the document, in their order.
    pub indexed : messages ≡ index (rows children)
    pub ids : Distinct messages
    pub refs : DistinctRefs (rows children)
    pub older : All (λ n. n.ref < next_ref) (rows children)
    pub linked : Linked nonces messages

  abbrev pub HasInv : Timeline A → Type 0
  HasInv t = Inv t.children t.messages t.nonces t.next_ref

  pub All-drop_ref {κ} :
      (P : Node A → Type κ) (r : ℕ) (l : List (Node A)) → All P l → All P (drop_ref r l)
  unfolding drop_ref
  All-drop_ref P r [] h = tt
  All-drop_ref P r (n ∷ l) h = elim (ℕ_discrete n.ref r) [
    | yes p ↦ rw (if_pos _ p) (All-drop_ref P r l h.1)
    | no p ↦ rw (if_neg _ p) (h.0, All-drop_ref P r l h.1)
  ]

  pub drop_ref-DistinctRefs :
      (r : ℕ) (l : List (Node A)) → DistinctRefs l → DistinctRefs (drop_ref r l)
  unfolding drop_ref
  drop_ref-DistinctRefs r [] h = tt
  drop_ref-DistinctRefs r (n ∷ l) h = elim (ℕ_discrete n.ref r) [
    | yes p ↦ rw (if_pos _ p) (drop_ref-DistinctRefs r l h.1)
    | no p ↦
        rw (if_neg _ p)
          (All-drop_ref (λ m. ¬ (m.ref ≡ n.ref)) r l h.0, drop_ref-DistinctRefs r l h.1)
  ]

  -- A row is forgotten and detached.
  pub drop-HasInv :
      (id : String) (node : Node A) (t : Timeline A)
      → HasInv t
      → get String_discrete id t.messages ≡ some node
      → HasInv (detach node (forget id node t))
  unfolding detach forget
  drop-HasInv id node t v e =
      let gone = rows-remove_node node.ref t.children in
      let there = subst (λ m. get String_discrete id m ≡ some node) v.indexed e in
      record {
        indexed =
            ap (delete String_discrete id) v.indexed
            ∙ (sym (
                  index-drop_ref id node (rows t.children) v.refs (subst Distinct v.indexed v.ids)
                    there)
                ∙ ap index (sym gone));
        ids = delete-Distinct String_discrete id t.messages v.ids;
        refs = rw gone (drop_ref-DistinctRefs node.ref (rows t.children) v.refs);
        older = rw gone (All-drop_ref (λ n. n.ref < t.next_ref) node.ref (rows t.children) v.older);
        linked = forget-Linked id node t.nonces t.messages v.linked e;
      }
