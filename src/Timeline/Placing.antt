-- ===== src/Timeline/Placing.antt =====
-- A row is appended to the document or replaces another (priv/ui/js/timeline.js).
use wiregrid.Base.{
  ℕ, suc, ◌<◌, ◌≡◌, refl, sym, ap, ◌∙◌, subst, String, ◌≢◌, Option, none, some, List, [], ◌∷◌, ◌++◌,
  arith, if_pos, if_neg, String_discrete, ℕ_discrete, All, map-append,
}
use wiregrid.Base.JsMap.{
  JsMap, get, set, delete, get-delete_self, set_new, set-Distinct, get_of_get-delete,
}
use wiregrid.Timeline.Types.{Node, Timeline}
use wiregrid.Timeline.Dom.{rows, replace_node}
use wiregrid.Timeline.Index.{remember, remember_nonce}
use wiregrid.Timeline.Ops.{append_row, update_row}
use wiregrid.Timeline.Rows.{
  index, DistinctRefs, swap_ref, swap_ref_absent, rows-append, rows-replace_node, index-swap_ref,
}
use wiregrid.Timeline.Nonces.{Linked, remember-Linked, unlinked_of_none}
use wiregrid.Timeline.Inv.{Inv, HasInv}

-- The nonces without that of the row that is replaced.
without : Option String → JsMap String String → JsMap String String
without nonce ns = elim nonce [ none ↦ ns | some n ↦ delete String_discrete n ns ]

without_kept :
    (nonce : Option String) (ns : JsMap String String) (q : String) {j : String}
    → get String_discrete q (without nonce ns) ≡ some j
    → get String_discrete q ns ≡ some j
unfolding without
without_kept none ns q h = h
without_kept (some n) ns q h = get_of_get-delete String_discrete n q ns h

without_self :
    (nonce : Option String) (ns : JsMap String String) (q : String) {j : String}
    → nonce ≡ some q
    → get String_discrete q (without nonce ns) ≢ some j
unfolding without
without_self none ns q e h = ground arith
without_self (some n) ns q e h = ground (arith, get-delete_self String_discrete n ns)

module _ {A : Type 0} where
  All-snoc {κ} :
      (P : Node A → Type κ) (n : Node A) (l : List (Node A)) → All P l → P n → All P (l ++ n ∷ [])
  All-snoc P n [] h p = (p, tt)
  All-snoc P n (x ∷ l) h p = (h.0, All-snoc P n l h.1 p)

  pub All-older : (r : ℕ) (l : List (Node A)) → All (λ n. n.ref < r) l → All (λ n. n.ref < suc r) l
  All-older r [] h = tt
  All-older r (x ∷ l) h = (omega (arith, h.0), All-older r l h.1)

  pub All-apart : (r : ℕ) (l : List (Node A)) → All (λ n. n.ref < r) l → All (λ n. ¬ (n.ref ≡ r)) l
  All-apart r [] h = tt
  All-apart r (x ∷ l) h = (λ e. omega (arith, h.0), All-apart r l h.1)

  snoc-DistinctRefs :
      (n : Node A) (l : List (Node A))
      → DistinctRefs l
      → All (λ m. m.ref < n.ref) l
      → DistinctRefs (l ++ n ∷ [])
  snoc-DistinctRefs n [] d h = (tt, tt)
  snoc-DistinctRefs n (x ∷ l) d h = (
    All-snoc (λ m. ¬ (m.ref ≡ x.ref)) n l d.0 (λ e. omega (arith, h.0)),
    snoc-DistinctRefs n l d.1 h.1,
  )

  pub All-swap_ref {κ} :
      (P : Node A → Type κ) (r : ℕ) (node : Node A) (l : List (Node A))
      → P node
      → All P l
      → All P (swap_ref r node l)
  unfolding swap_ref
  All-swap_ref P r node [] p h = tt
  All-swap_ref P r node (n ∷ l) p h = elim (ℕ_discrete n.ref r) [
    | yes e ↦ rw (if_pos _ e) (p, All-swap_ref P r node l p h.1)
    | no e ↦ rw (if_neg _ e) (h.0, All-swap_ref P r node l p h.1)
  ]

  pub swap_ref-DistinctRefs :
      (r : ℕ) (node : Node A) (l : List (Node A))
      → DistinctRefs l
      → All (λ m. m.ref < node.ref) l
      → DistinctRefs (swap_ref r node l)
  unfolding swap_ref
  swap_ref-DistinctRefs r node [] d h = tt
  swap_ref-DistinctRefs r node (n ∷ l) d h = elim (ℕ_discrete n.ref r) [
    | yes e ↦
        rw (if_pos _ e, swap_ref_absent r node l (rw (← e) d.0)) (All-apart node.ref l h.1, d.1)
    | no e ↦ rw (if_neg _ e) (
      All-swap_ref (λ m. ¬ (m.ref ≡ n.ref)) r node l (λ p. omega (arith, h.0)) d.0,
      swap_ref-DistinctRefs r node l d.1 h.1,
    )
  ]

  -- A row whose id is new goes to the end of the document and of the index.
  pub append_row-HasInv :
      (node : Node A) (t : Timeline A)
      → HasInv t
      → get String_discrete node.message_id t.messages ≡ none
      → node.ref ≡ t.next_ref
      → HasInv (append_row node (record t { next_ref = suc t.next_ref }))
  unfolding append_row remember
  append_row-HasInv node t v e f =
      let added = rows-append t.children node in
      let older : All (λ n. n.ref < node.ref) (rows t.children) =
        subst (λ r. All (λ n. n.ref < r) (rows t.children)) (sym f) v.older in
      record {
        indexed =
            set_new String_discrete node.message_id node t.messages e
            ∙ (ap (λ m. m ++ (node.message_id, node) ∷ []) v.indexed
                ∙ (sym (map-append _ (rows t.children) (node ∷ [])) ∙ ap index (sym added)));
        ids = set-Distinct String_discrete node.message_id node t.messages v.ids;
        refs = rw added (snoc-DistinctRefs node (rows t.children) v.refs older);
        older = rw added (
            All-snoc (λ n. n.ref < suc t.next_ref) node (rows t.children)
              (All-older t.next_ref (rows t.children) v.older) (omega arith));
        linked =
            remember-Linked node t.nonces t.messages v.linked
              (unlinked_of_none node.message_id t.nonces t.messages v.linked e);
      }

  update-Linked :
      (old node : Node A) (ns : JsMap String String) (ms : JsMap String (Node A))
      → Linked ns ms
      → get String_discrete node.message_id ms ≡ some old
      → Linked
          (remember_nonce node.message_id node.nonce (without old.nonce ns))
          (set String_discrete node.message_id node ms)
  update-Linked old node ns ms v e =
      remember-Linked node (without old.nonce ns) ms
        (λ q j h. v q j (without_kept old.nonce ns q h))
        (λ q h.
          let (n, there, carries) = v q node.message_id (without_kept old.nonce ns q h) in
          let same : n ≡ old = ground arith in without_self old.nonce ns q (ground arith) h)

  -- A row is replaced under its own id.
  pub update_row-HasInv :
      (old node : Node A) (t : Timeline A)
      → HasInv t
      → get String_discrete node.message_id t.messages ≡ some old
      → node.ref ≡ t.next_ref
      → Inv
          (replace_node old.ref node t.children)
          (update_row old node t).messages
          (update_row old node t).nonces
          (suc t.next_ref)
  unfolding update_row without
  update_row-HasInv old node t v e f =
      let swapped = rows-replace_node old.ref node t.children in
      let there = subst (λ m. get String_discrete node.message_id m ≡ some old) v.indexed e in
      let older : All (λ n. n.ref < node.ref) (rows t.children) =
        subst (λ r. All (λ n. n.ref < r) (rows t.children)) (sym f) v.older in
      record {
        indexed =
            ap (set String_discrete node.message_id node) v.indexed
            ∙ (sym (index-swap_ref node.message_id old node (rows t.children) v.refs refl there)
                ∙ ap index (sym swapped));
        ids = set-Distinct String_discrete node.message_id node t.messages v.ids;
        refs = rw swapped (swap_ref-DistinctRefs old.ref node (rows t.children) v.refs older);
        older = rw swapped (
            All-swap_ref (λ n. n.ref < suc t.next_ref) old.ref node (rows t.children) (omega arith)
              (All-older t.next_ref (rows t.children) v.older));
        linked = update-Linked old node t.nonces t.messages v.linked e;
      }
