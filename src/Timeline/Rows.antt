-- ===== src/Timeline/Rows.antt =====
-- The index by id and the document agree (priv/ui/js/timeline.js): how each change of the one is a
-- change of the other.
use wiregrid.Base.{
  ℕ, ◌≡◌, refl, sym, ap, ◌∙◌, String, ◌≢◌, none, some, List, [], ◌∷◌, ◌++◌, map, arith, ite, if_pos,
  if_neg, append-nil, append_assoc, ℕ_discrete, String_discrete, All,
}
use wiregrid.Base.JsMap.{JsMap, Distinct, get, set, delete, delete_absent, set_new}
use wiregrid.Timeline.Types.{Node, Child, row, other, Timeline}
use wiregrid.Timeline.Dom.{remove_node, replace_node, rows}
use wiregrid.Timeline.Index.{remember}
use wiregrid.Timeline.Ops.{rebuild}

module _ {A : Type 0} where
  -- The index that the rows should have.
  abbrev pub index : List (Node A) → JsMap String (Node A)
  index = map (λ n. (n.message_id, n))

  -- No two rows are one element.
  abbrev pub DistinctRefs : List (Node A) → Type 0
  DistinctRefs [] = Unit {0}
  DistinctRefs (n ∷ l) = All (λ m. ¬ (m.ref ≡ n.ref)) l × DistinctRefs l

  unfoldable pub drop_ref : ℕ → List (Node A) → List (Node A)
  drop_ref r [] = []
  drop_ref r (n ∷ l) = ite (ℕ_discrete n.ref r) (drop_ref r l) (n ∷ drop_ref r l)

  unfoldable pub swap_ref : ℕ → Node A → List (Node A) → List (Node A)
  swap_ref r node [] = []
  swap_ref r node (n ∷ l) =
      ite (ℕ_discrete n.ref r) (node ∷ swap_ref r node l) (n ∷ swap_ref r node l)

  pub rows-remove_node : (r : ℕ) (l : List (Child A)) → rows (remove_node r l) ≡ drop_ref r (rows l)
  unfolding rows remove_node drop_ref
  rows-remove_node r [] = refl
  rows-remove_node r (row n ∷ l) = ground (arith, rows-remove_node r l)
  rows-remove_node r (other k ∷ l) = rows-remove_node r l

  pub rows-replace_node :
      (r : ℕ) (node : Node A) (l : List (Child A))
      → rows (replace_node r node l) ≡ swap_ref r node (rows l)
  unfolding rows replace_node swap_ref
  rows-replace_node r node [] = refl
  rows-replace_node r node (row n ∷ l) = ground (arith, rows-replace_node r node l)
  rows-replace_node r node (other k ∷ l) = rows-replace_node r node l

  pub rows-append :
      (l : List (Child A)) (node : Node A) → rows (l ++ row node ∷ []) ≡ rows l ++ node ∷ []
  unfolding rows
  rows-append [] node = refl
  rows-append (row n ∷ l) node = ap (◌∷◌ n) (rows-append l node)
  rows-append (other k ∷ l) node = rows-append l node

  -- What all rows have, the row that is found has.
  pub All-index-get {κ} :
      (P : Node A → Type κ) (id : String) (n : Node A) (l : List (Node A))
      → All P l
      → get String_discrete id (index l) ≡ some n
      → P n × (n.message_id ≡ id)
  unfolding get
  All-index-get P id n [] h e = absurd (ground arith)
  All-index-get P id n (x ∷ l) h e = elim (String_discrete x.message_id id) [
    | yes p ↦ let same : x ≡ n = ground arith in rw (← same) (h.0, p)
    | no p ↦ All-index-get P id n l h.1 (ground arith)
  ]

  pub drop_ref_absent : (r : ℕ) (l : List (Node A)) → All (λ n. ¬ (n.ref ≡ r)) l → drop_ref r l ≡ l
  unfolding drop_ref
  drop_ref_absent r [] h = refl
  drop_ref_absent r (n ∷ l) h = ground (arith, drop_ref_absent r l h.1)

  pub swap_ref_absent :
      (r : ℕ) (node : Node A) (l : List (Node A))
      → All (λ n. ¬ (n.ref ≡ r)) l
      → swap_ref r node l ≡ l
  unfolding swap_ref
  swap_ref_absent r node [] h = refl
  swap_ref_absent r node (n ∷ l) h = ground (arith, swap_ref_absent r node l h.1)

  -- Detaching a row from the document is deleting its entry.
  pub index-drop_ref :
      (id : String) (n : Node A) (l : List (Node A))
      → DistinctRefs l
      → Distinct (index l)
      → get String_discrete id (index l) ≡ some n
      → index (drop_ref n.ref l) ≡ delete String_discrete id (index l)
  unfolding drop_ref get delete
  index-drop_ref id n [] r d e = absurd (ground arith)
  index-drop_ref id n (x ∷ l) r d e = elim (String_discrete x.message_id id) [
    | yes p ↦
        let same : x ≡ n = ground arith in
        let alone : drop_ref n.ref l ≡ l = drop_ref_absent n.ref l (rw (← same) r.0) in
        let gone : delete String_discrete id (index l) ≡ index l =
          delete_absent String_discrete id (index l) (rw (← p) d.0) in
        ground (arith, alone, gone)
    | no p ↦
        let there : get String_discrete id (index l) ≡ some n = ground arith in
        let apart = All-index-get (λ m. ¬ (m.ref ≡ x.ref)) id n l r.0 there in
        ground (arith, index-drop_ref id n l r.1 d.1 there, apart.0)
  ]

  -- A row replaced under its own id.
  pub index-swap_ref :
      (id : String) (n node : Node A) (l : List (Node A))
      → DistinctRefs l
      → node.message_id ≡ id
      → get String_discrete id (index l) ≡ some n
      → index (swap_ref n.ref node l) ≡ set String_discrete id node (index l)
  unfolding swap_ref get set
  index-swap_ref id n node [] r f e = absurd (ground arith)
  index-swap_ref id n node (x ∷ l) r f e = elim (String_discrete x.message_id id) [
    | yes p ↦
        let same : x ≡ n = ground arith in
        let alone : swap_ref n.ref node l ≡ l = swap_ref_absent n.ref node l (rw (← same) r.0) in
        ground (arith, alone)
    | no p ↦
        let there : get String_discrete id (index l) ≡ some n = ground arith in
        let apart = All-index-get (λ m. ¬ (m.ref ≡ x.ref)) id n l r.0 there in
        ground (arith, index-swap_ref id n node l r.1 f there, apart.0)
  ]

  -- The entries with one of them renamed in its place.
  unfoldable pub rename_all : JsMap String (Node A) → String → Node A → JsMap String (Node A)
  rename_all [] old_id node = []
  rename_all ((key, value) ∷ l) old_id node =
      ite (String_discrete key old_id) (node.message_id, node) (key, value)
      ∷ rename_all l old_id node

  pub rename_all_absent :
      (old_id : String) (node : Node A) (l : JsMap String (Node A))
      → All (λ e. e.0 ≢ old_id) l
      → rename_all l old_id node ≡ l
  unfolding rename_all
  rename_all_absent old_id node [] h = refl
  rename_all_absent old_id node ((k, v) ∷ l) h = ground (arith, rename_all_absent old_id node l h.1)

  pub index-swap_ref_renamed :
      (id : String) (n node : Node A) (l : List (Node A))
      → DistinctRefs l
      → Distinct (index l)
      → get String_discrete id (index l) ≡ some n
      → index (swap_ref n.ref node l) ≡ rename_all (index l) id node
  unfolding swap_ref get rename_all
  index-swap_ref_renamed id n node [] r d e = absurd (ground arith)
  index-swap_ref_renamed id n node (x ∷ l) r d e = elim (String_discrete x.message_id id) [
    | yes p ↦
        let same : x ≡ n = ground arith in
        let alone : swap_ref n.ref node l ≡ l = swap_ref_absent n.ref node l (rw (← same) r.0) in
        let others : rename_all (index l) id node ≡ index l =
          rename_all_absent id node (index l) (rw (← p) d.0) in
        ground (arith, alone, others)
    | no p ↦
        let there : get String_discrete id (index l) ≡ some n = ground arith in
        let apart = All-index-get (λ m. ¬ (m.ref ≡ x.ref)) id n l r.0 there in
        ground (arith, index-swap_ref_renamed id n node l r.1 d.1 there, apart.0)
  ]

  get-append_none :
      (k q : String) (v : Node A) (l : JsMap String (Node A))
      → q ≢ k
      → get String_discrete k l ≡ none
      → get String_discrete k (l ++ (q, v) ∷ []) ≡ none
  unfolding get
  get-append_none k q v [] h e = ground arith
  get-append_none k q v ((j, w) ∷ l) h e = ground (arith, get-append_none k q v l h)

  -- No key of the entries is in the map.
  abbrev Apart : JsMap String (Node A) → JsMap String (Node A) → Type 0
  Apart l m = All (λ e. get String_discrete e.0 m ≡ none) l

  Apart-append :
      (q : String) (v : Node A) (l m : JsMap String (Node A))
      → All (λ e. e.0 ≢ q) l
      → Apart l m
      → Apart l (m ++ (q, v) ∷ [])
  Apart-append q v [] m h a = tt
  Apart-append q v (e ∷ l) m h a =
      (get-append_none e.0 q v m (λ p. h.0 (sym p)) a.0, Apart-append q v l m h.1 a.1)

  rebuild_rest :
      (l : JsMap String (Node A)) (old_id : String) (node : Node A) (t : Timeline A)
      → Distinct l
      → Apart l t.messages
      → All (λ e. e.0 ≢ old_id) l
      → (rebuild l old_id node t).messages ≡ t.messages ++ l
  unfolding rebuild
  rebuild_rest [] old_id node t d a h = sym (append-nil t.messages)
  rebuild_rest ((k, v) ∷ l) old_id node t d a h =
      let added : set String_discrete k v t.messages ≡ t.messages ++ (k, v) ∷ [] =
        set_new String_discrete k v t.messages a.0 in
      let rest =
        rebuild_rest l old_id node (record t { messages = set String_discrete k v t.messages }) d.1
          (rw added (Apart-append k v l t.messages d.0 a.1)) h.1 in
      ap (λ (u : Timeline A). (rebuild l old_id node u).messages)
        (if_neg (String_discrete k old_id) h.0 _ _)
      ∙ (rest ∙ ap (λ m. m ++ l) added ∙ append_assoc t.messages ((k, v) ∷ []) l)

  -- The rebuilt index has the entries in their order, the renamed one in its place.
  pub rebuild-messages :
      (l : JsMap String (Node A)) (old_id : String) (node : Node A) (t : Timeline A)
      → Distinct l
      → Apart l t.messages
      → All (λ e. e.0 ≢ node.message_id) l
      → get String_discrete node.message_id t.messages ≡ none
      → (rebuild l old_id node t).messages ≡ t.messages ++ rename_all l old_id node
  unfolding rebuild remember rename_all
  rebuild-messages [] old_id node t d a h e = sym (append-nil t.messages)
  rebuild-messages ((k, v) ∷ l) old_id node t d a h e = elim (String_discrete k old_id) [
    | yes p ↦
        let added : (remember node t).messages ≡ t.messages ++ (node.message_id, node) ∷ [] =
          set_new String_discrete node.message_id node t.messages e in
        let others : All (λ e. e.0 ≢ old_id) l = rw (← p) d.0 in
        let rest =
          rebuild_rest l old_id node (remember node t) d.1
            (rw added (Apart-append node.message_id node l t.messages h.1 a.1)) others in
        rw (if_pos {C = String × Node A} (String_discrete k old_id) p) (
          ap (λ (u : Timeline A). (rebuild l old_id node u).messages)
            (if_pos (String_discrete k old_id) p _ _)
          ∙ rest
          ∙ ap (λ m. m ++ l) added
          ∙ append_assoc t.messages ((node.message_id, node) ∷ []) l
          ∙ ap (λ m. t.messages ++ (node.message_id, node) ∷ m)
              (sym (rename_all_absent old_id node l others)))
    | no p ↦
        let added : set String_discrete k v t.messages ≡ t.messages ++ (k, v) ∷ [] =
          set_new String_discrete k v t.messages a.0 in
        let rest =
          rebuild-messages l old_id node
            (record t { messages = set String_discrete k v t.messages }) d.1
            (rw added (Apart-append k v l t.messages d.0 a.1)) h.1
            (rw added (get-append_none node.message_id k v t.messages h.0 e)) in
        rw (if_neg {C = String × Node A} (String_discrete k old_id) p) (
          ap (λ (u : Timeline A). (rebuild l old_id node u).messages)
            (if_neg (String_discrete k old_id) p _ _)
          ∙ rest
          ∙ ap (λ m. m ++ rename_all l old_id node) added
          ∙ append_assoc t.messages ((k, v) ∷ []) (rename_all l old_id node))
  ]
