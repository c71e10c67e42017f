-- ===== src/Timeline/Renaming.antt =====
-- A row is replaced under another id, in its place (priv/ui/js/timeline.js).
use wiregrid.Base.{
  ℕ, suc, ◌<◌, ◌≡◌, refl, sym, ap, ap₂, ◌∙◌, subst, String, ◌≢◌, none, some, [], ◌∷◌, arith, if_pos,
  if_neg, String_discrete, All, inl, inr,
}
use wiregrid.Base.JsMap.{
  JsMap, Distinct, get, set, get-delete_self, get_of_get-delete, Avoids_of_none,
}
use wiregrid.Timeline.Types.{Node, Timeline}
use wiregrid.Timeline.Dom.{rows, replace_node}
use wiregrid.Timeline.Index.{remember, forget}
use wiregrid.Timeline.Ops.{rename_row, rebuild}
use wiregrid.Timeline.Rows.{
  index, rows-replace_node, index-swap_ref_renamed, rename_all, rebuild-messages,
}
use wiregrid.Timeline.Nonces.{Linked, forget-Linked, rebuild-nonces, remembered}
use wiregrid.Timeline.Inv.{Inv}
use wiregrid.Timeline.Placing.{All-swap_ref, swap_ref-DistinctRefs, All-older}

module _ {A : Type 0} where
  All-rename_all {κ} :
      (P : String × Node A → Type κ) (old_id : String) (node : Node A) (l : JsMap String (Node A))
      → P (node.message_id, node)
      → All P l
      → All P (rename_all l old_id node)
  unfolding rename_all
  All-rename_all P old_id node [] p h = tt
  All-rename_all P old_id node ((k, v) ∷ l) p h = elim (String_discrete k old_id) [
    | yes e ↦
        rw (if_pos {C = String × Node A} (String_discrete k old_id) e)
          (p, All-rename_all P old_id node l p h.1)
    | no e ↦
        rw (if_neg {C = String × Node A} (String_discrete k old_id) e)
          (h.0, All-rename_all P old_id node l p h.1)
  ]

  rename_all_others :
      (old_id : String) (node : Node A) (l : JsMap String (Node A))
      → All (λ e. e.0 ≢ old_id) l
      → rename_all l old_id node ≡ l
  unfolding rename_all
  rename_all_others old_id node [] h = refl
  rename_all_others old_id node ((k, v) ∷ l) h = ground (arith, rename_all_others old_id node l h.1)

  rename_all-Distinct :
      (old_id : String) (node : Node A) (l : JsMap String (Node A))
      → Distinct l
      → All (λ e. e.0 ≢ node.message_id) l
      → Distinct (rename_all l old_id node)
  unfolding rename_all
  rename_all-Distinct old_id node [] d h = tt
  rename_all-Distinct old_id node ((k, v) ∷ l) d h = elim (String_discrete k old_id) [
    | yes e ↦
        subst Distinct
          (sym (
            ap₂ ◌∷◌ (if_pos {C = String × Node A} (String_discrete k old_id) e _ _)
              (rename_all_others old_id node l (rw (← e) d.0))))
          (h.1, d.1)
    | no e ↦
        subst Distinct
          (sym (
            ap (λ x. x ∷ rename_all l old_id node)
              (if_neg {C = String × Node A} (String_discrete k old_id) e (node.message_id, node)
                (k, v))))
          (
            All-rename_all (λ e. e.0 ≢ k) old_id node l (λ p. h.0 (sym p)) d.0,
            rename_all-Distinct old_id node l d.1 h.1,
          )
  ]

  pub get-rename_all_self :
      (old_id : String) (node old : Node A) (l : JsMap String (Node A))
      → All (λ e. e.0 ≢ node.message_id) l
      → get String_discrete old_id l ≡ some old
      → get String_discrete node.message_id (rename_all l old_id node) ≡ some node
  unfolding rename_all get
  get-rename_all_self old_id node old [] a e = absurd (ground arith)
  get-rename_all_self old_id node old ((k, v) ∷ l) a e =
      ground (arith, get-rename_all_self old_id node old l a.1, a.0)

  get-rename_all_ne :
      (old_id : String) (node : Node A) (l : JsMap String (Node A)) (q : String)
      → q ≢ old_id
      → q ≢ node.message_id
      → get String_discrete q (rename_all l old_id node) ≡ get String_discrete q l
  unfolding rename_all get
  get-rename_all_ne old_id node [] q g h = refl
  get-rename_all_ne old_id node ((k, v) ∷ l) q g h =
      ground (arith, get-rename_all_ne old_id node l q g h)

  All-none :
      (l : JsMap String (Node A))
      → All (λ e. get {K = String} {V = Node A} String_discrete e.0 [] ≡ none) l
  unfolding get
  All-none [] = tt
  All-none (x ∷ l) = (refl, All-none l)

  pub rename_row-messages :
      (old_id : String) (old node : Node A) (t : Timeline A)
      → Distinct t.messages
      → get String_discrete node.message_id t.messages ≡ none
      → (rename_row old_id old node t).messages ≡ rename_all t.messages old_id node
  unfolding rename_row get
  rename_row-messages old_id old node t d e =
      rebuild-messages t.messages old_id node (record (forget old_id old t) { messages = [] }) d
        (All-none t.messages) (Avoids_of_none String_discrete node.message_id t.messages e) refl

  rename_row-Linked :
      (old_id : String) (old node : Node A) (t : Timeline A) (r : ℕ)
      → Inv t.children t.messages t.nonces r
      → get String_discrete old_id t.messages ≡ some old
      → get String_discrete node.message_id t.messages ≡ none
      → Linked (rename_row old_id old node t).nonces (rename_all t.messages old_id node)
  unfolding rename_row forget
  rename_row-Linked old_id old node t r v e f q j h =
      let start = record (forget old_id old t) { messages = [] } in
      let own : node.nonce ≡ some q
          → j ≡ node.message_id
          → (n : Node A) × (get String_discrete j (rename_all t.messages old_id node) ≡ some n)
            × (n.nonce ≡ some q) =
        λ p s. (
          node,
          rw s (
              get-rename_all_self old_id node old t.messages
                (Avoids_of_none String_discrete node.message_id t.messages f) e),
          p,
        ) in
      elim (remembered node.message_id node.nonce (rebuild t.messages old_id node start).nonces q
        h) [
          | inl (p, s) ↦ own p s
          | inr g ↦ elim (rebuild-nonces t.messages old_id node start q g) [
            | inl (p, s) ↦ own p s
            | inr k ↦
                let (n, there, carries) =
                  forget-Linked old_id old t.nonces t.messages v.linked e q j k in
                let was = get_of_get-delete String_discrete old_id j t.messages there in
                let apart : j ≢ old_id =
                  λ p. ground (arith, get-delete_self String_discrete old_id t.messages) in
                let fresh : j ≢ node.message_id = λ p. ground arith in
                (n, get-rename_all_ne old_id node t.messages j apart fresh ∙ was, carries)
          ]
        ]

  pub rename_row-HasInv :
      (old_id : String) (old node : Node A) (t : Timeline A) (r : ℕ)
      → Inv t.children t.messages t.nonces r
      → get String_discrete old_id t.messages ≡ some old
      → get String_discrete node.message_id t.messages ≡ none
      → node.ref ≡ r
      → Inv
          (replace_node old.ref node t.children)
          (rename_row old_id old node t).messages
          (rename_row old_id old node t).nonces
          (suc r)
  rename_row-HasInv old_id old node t r v e fresh f =
      let swapped = rows-replace_node old.ref node t.children in
      let there = subst (λ m. get String_discrete old_id m ≡ some old) v.indexed e in
      let renamed = rename_row-messages old_id old node t v.ids fresh in
      let older : All (λ n. n.ref < node.ref) (rows t.children) =
        subst (λ s. All (λ n. n.ref < s) (rows t.children)) (sym f) v.older in
      record {
        indexed =
            renamed
            ∙ (ap (λ m. rename_all m old_id node) v.indexed
                ∙ (sym (
                      index-swap_ref_renamed old_id old node (rows t.children) v.refs
                        (subst Distinct v.indexed v.ids) there)
                    ∙ ap index (sym swapped)));
        ids = rw renamed (
            rename_all-Distinct old_id node t.messages v.ids
              (Avoids_of_none String_discrete node.message_id t.messages fresh));
        refs = rw swapped (swap_ref-DistinctRefs old.ref node (rows t.children) v.refs older);
        older = rw swapped (
            All-swap_ref (λ n. n.ref < suc r) old.ref node (rows t.children) (omega arith)
              (All-older r (rows t.children) v.older));
        linked = rw renamed (rename_row-Linked old_id old node t r v e fresh);
      }

  -- Rebuilding changes the two indexes only.
  rebuild-keeps {κ} :
      {B : Type κ} (f : Timeline A → B) (l : JsMap String (Node A)) (old_id : String)
      (node : Node A) (t : Timeline A)
      → ((u : Timeline A) (m : JsMap String (Node A)) (ns : JsMap String String)
          → f (record u { messages = m; nonces = ns }) ≡ f u)
      → f (rebuild l old_id node t) ≡ f t
  unfolding rebuild remember
  rebuild-keeps f [] old_id node t h = refl
  rebuild-keeps f ((k, v) ∷ l) old_id node t h = elim (String_discrete k old_id) [
    | yes p ↦
        ap (λ (u : Timeline A). f (rebuild l old_id node u))
          (if_pos (String_discrete k old_id) p _ _)
        ∙ (rebuild-keeps f l old_id node (remember node t) h ∙ h t _ _)
    | no p ↦
        ap (λ (u : Timeline A). f (rebuild l old_id node u))
          (if_neg (String_discrete k old_id) p _ _)
        ∙ (rebuild-keeps f l old_id node
              (record t { messages = set String_discrete k v t.messages }) h
            ∙ h t _ t.nonces)
  ]

  pub rename_row-keeps {κ} :
      {B : Type κ} (f : Timeline A → B) (old_id : String) (old node : Node A) (t : Timeline A)
      → ((u : Timeline A) (m : JsMap String (Node A)) (ns : JsMap String String)
          → f (record u { messages = m; nonces = ns }) ≡ f u)
      → f (rename_row old_id old node t) ≡ f t
  unfolding rename_row forget
  rename_row-keeps f old_id old node t h =
      let start = record (forget old_id old t) { messages = [] } in
      let renamed = rebuild t.messages old_id node start in
      h renamed renamed.messages _ ∙ (rebuild-keeps f t.messages old_id node start h ∙ h t _ _)
