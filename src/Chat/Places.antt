-- ===== src/Chat/Places.antt =====
-- What the changes of a container do with its rows (priv/ui/js/chat.js).
use wiregrid.Base.{
  ℕ, zero, suc, ◌-◌, ◌≤◌, ◌<◌, ◌≡◌, refl, sym, ap, ap₂, subst, ◌∙◌, String, Bool, false, none, some,
  List, [], ◌∷◌, ◌++◌, length, All, arith, if_pos, Bool-cases, Option-cases, inl, inr, if_either,
}
use wiregrid.Timeline.Types.{Node, Child, Amount}
use wiregrid.Timeline.Dom.{remove_node, rows}
use wiregrid.Timeline.Index.{row_limit}
use wiregrid.Timeline.Ops.{render}
use wiregrid.Timeline.Rows.{
  DistinctRefs, drop_ref, swap_ref, rows-remove_node, rows-replace_node, rows-append,
  drop_ref_absent, swap_ref_absent,
}
use wiregrid.Timeline.Starting.{row_limit_bounds}
use wiregrid.Timeline.Placing.{All-older, All-apart}
use wiregrid.Chat.Rows.{
  Board, Change, appended, upserted, reconciled, has_id, has_nonce, find_node, printed,
  remove_first, trim_timeline, put_node, append_message, upsert_message, reconcile_optimistic,
  change, change_all,
}
use wiregrid.Chat.Latest.{
  put, skip, latest, wanted, message_of, list_all, HasRefs, All-skip, skip-DistinctRefs,
  length-skip,
}

module _ {A : Type 0} where
  rows-remove_first :
      (n : ℕ) (nodes : List (Node A)) (l : List (Child A))
      → DistinctRefs nodes
      → rows l ≡ nodes
      → rows (remove_first n nodes l) ≡ skip n nodes
  unfolding remove_first drop_ref
  rows-remove_first zero nodes l d e = e
  rows-remove_first (suc n) [] l d e = e
  rows-remove_first (suc n) (x ∷ nodes) l d e =
      rows-remove_first n nodes (remove_node x.ref l) d.1
        (rows-remove_node x.ref l ∙ (ap (drop_ref x.ref) e ∙ first_gone))
    where
      first_gone : drop_ref x.ref (x ∷ nodes) ≡ nodes
      first_gone = rw (if_pos _ refl) (drop_ref_absent x.ref nodes d.0)

  All-find_node :
      (P : Node A → Type 0) (f : Node A → Bool) (old : Node A) (l : List (Node A))
      → All P l
      → find_node f l ≡ some old
      → P old
  unfolding find_node
  All-find_node P f old [] h e = absurd (ground arith)
  All-find_node P f old (x ∷ l) h e = elim (Bool-cases (f x)) [
    | inl t ↦ let same : x ≡ old = ground arith in rw (← same) h.0
    | inr t ↦ All-find_node P f old l h.1 (ground arith)
  ]

  find_node_lem :
      (f : Node A → Bool) (old node : Node A) (l : List (Node A))
      → DistinctRefs l
      → find_node f l ≡ some old
      → swap_ref old.ref node l ≡ put f node l
  unfolding find_node swap_ref
  find_node_lem f old node [] d e = absurd (ground arith)
  find_node_lem f old node (x ∷ l) d e = elim (Bool-cases (f x)) [
    | inl t ↦
        let same : x ≡ old = ground arith in
        let alone : swap_ref old.ref node l ≡ l =
          swap_ref_absent old.ref node l (rw (← same) d.0) in
        ground (arith, alone)
    | inr t ↦
        let there : find_node f l ≡ some old = ground arith in
        let apart = All-find_node (λ m. ¬ (m.ref ≡ x.ref)) f old l d.0 there in
        ground (arith, find_node_lem f old node l d.1 there, apart)
  ]

  put_last :
      (f : Node A → Bool) (node : Node A) (l : List (Node A))
      → find_node f l ≡ none
      → l ++ node ∷ [] ≡ put f node l
  unfolding find_node
  put_last f node [] e = refl
  put_last f node (x ∷ l) e = elim (Bool-cases (f x)) [
    | inl h ↦ absurd (ground arith)
    | inr h ↦ ground (arith, h, put_last f node l)
  ]

  put_node-put :
      (f : Node A → Bool) (node : Node A) (l : List (Child A))
      → DistinctRefs (rows l)
      → rows (put_node (find_node f (rows l)) node l) ≡ put f node (rows l)
  unfolding put_node
  put_node-put f node l d = elim (Option-cases (find_node f (rows l))) [
    | inl e ↦ rw e (rows-append l node ∙ put_last f node (rows l) e)
    | inr (old, e) ↦ rw e (rows-replace_node old.ref node l ∙ find_node_lem f old node (rows l) d e)
  ]

  trim_timeline-latest :
      (amount : Amount) (l : List (Child A))
      → DistinctRefs (rows l)
      → rows (trim_timeline amount l) ≡ latest (row_limit amount) (rows l)
  unfolding trim_timeline
  trim_timeline-latest amount l d =
      rows-remove_first (length (rows l) - row_limit amount) (rows l) l d refl

  All-put :
      (P : Node A → Type 0) (f : Node A → Bool) (node : Node A) (l : List (Node A))
      → P node
      → All P l
      → All P (put f node l)
  All-put P f node [] p h = (p, tt)
  All-put P f node (x ∷ l) p h =
      if_either (All P) (f x) (λ _. (p, h.1)) (λ _. (h.0, All-put P f node l p h.1))

  put-DistinctRefs :
      (f : Node A → Bool) (node : Node A) (l : List (Node A))
      → DistinctRefs l
      → All (λ m. m.ref < node.ref) l
      → DistinctRefs (put f node l)
  put-DistinctRefs f node [] d h = (tt, tt)
  put-DistinctRefs f node (x ∷ l) d h =
      if_either DistinctRefs (f x) (λ _. (All-apart node.ref l h.1, d.1))
        (λ _. (
          All-put (λ m. ¬ (m.ref ≡ x.ref)) f node l (λ p. omega (arith, h.0)) d.0,
          put-DistinctRefs f node l d.1 h.1,
        ))

  placed :
      (amount : Amount) (f : Node A → Bool) (node : Node A) (l : List (Child A))
      → DistinctRefs (rows l)
      → All (λ n. n.ref < node.ref) (rows l)
      → rows (trim_timeline amount (put_node (find_node f (rows l)) node l))
        ≡ latest (row_limit amount) (put f node (rows l))
  placed amount f node l d h =
      let at = put_node-put f node l d in
      trim_timeline-latest amount (put_node (find_node f (rows l)) node l)
        (subst DistinctRefs (sym at) (put-DistinctRefs f node (rows l) d h))
      ∙ ap (latest (row_limit amount)) at

  found_nowhere : (l : List (Node A)) → find_node (λ n. false) l ≡ none
  unfolding find_node
  found_nowhere [] = refl
  found_nowhere (x ∷ l) = found_nowhere l

  change-rows :
      (amount : Amount) (uid : String) (e : Change A) (b : Board A)
      → HasRefs b
      → rows (change amount uid e b).children
        ≡ latest
            (row_limit amount)
            (put (wanted e) (render (message_of e) uid b.next_ref) (rows b.children))
  unfolding change append_message upsert_message reconcile_optimistic render
  change-rows amount uid (appended message) b v =
      let node = render message uid b.next_ref in
      subst
        (λ o.
          rows (trim_timeline amount (put_node o node b.children))
          ≡ latest (row_limit amount) (put (λ n. false) node (rows b.children)))
        (found_nowhere (rows b.children)) (placed amount (λ n. false) node b.children v.0 v.1)
  change-rows amount uid (upserted message) b v =
      placed amount (has_id (printed message.id)) (render message uid b.next_ref) b.children v.0 v.1
  change-rows amount uid (reconciled wanted_nonce message) b v =
      placed amount (has_nonce (printed wanted_nonce)) (render message uid b.next_ref) b.children
        v.0 v.1

  change_next :
      (amount : Amount) (uid : String) (e : Change A) (b : Board A)
      → (change amount uid e b).next_ref ≡ suc b.next_ref
  unfolding change append_message upsert_message reconcile_optimistic
  change_next amount uid (appended message) b = refl
  change_next amount uid (upserted message) b = refl
  change_next amount uid (reconciled _ message) b = refl

  change-HasRefs :
      (amount : Amount) (uid : String) (e : Change A) (b : Board A)
      → HasRefs b
      → HasRefs (change amount uid e b)
  unfolding render
  change-HasRefs amount uid e b v =
      let node = render (message_of e) uid b.next_ref in
      let all = put (wanted e) node (rows b.children) in
      let first = length all - row_limit amount in
      rw (change-rows amount uid e b v, change_next amount uid e b)
        (
          skip-DistinctRefs first all (put-DistinctRefs (wanted e) node (rows b.children) v.0 v.1),
          All-skip (λ n. n.ref < suc b.next_ref) first all
              (All-put (λ n. n.ref < suc b.next_ref) (wanted e) node (rows b.children) (omega arith)
                (All-older b.next_ref (rows b.children) v.1)),
        )

  -- Whatever is appended, upserted and reconciled, in any order, in a container whose rows are
  -- different elements, the rows are in the end those of the same changes on a plain list: a change
  -- puts the new row in the place of the first row with the id or the nonce, or in the last place,
  -- and keeps the latest rows that fit.
  pub change_all-list_all :
      (amount : Amount) (l : List (String × Change A)) (b : Board A)
      → HasRefs b
      → rows (change_all amount l b).children
        ≡ list_all (row_limit amount) b.next_ref l (rows b.children)
  unfolding change_all
  change_all-list_all amount [] b v = refl
  change_all-list_all amount ((uid, e) ∷ l) b v =
      change_all-list_all amount l (change amount uid e b) (change-HasRefs amount uid e b v)
      ∙ ap₂ (λ n r. list_all (row_limit amount) n l r) (change_next amount uid e b)
          (change-rows amount uid e b v)

  -- After a change there are no more rows than fit.
  pub change-bounded :
      (amount : Amount) (uid : String) (e : Change A) (b : Board A)
      → HasRefs b
      → (1 ≤ row_limit amount)
        × (row_limit amount ≤ 20000)
        × (length (rows (change amount uid e b).children) ≤ row_limit amount)
  change-bounded amount uid e b v =
      let all = put (wanted e) (render (message_of e) uid b.next_ref) (rows b.children) in
      let bounds = row_limit_bounds amount in
      (
        bounds.0,
        bounds.1,
        rw (change-rows amount uid e b v)
            (omega (arith, length-skip (length all - row_limit amount) all)),
      )
