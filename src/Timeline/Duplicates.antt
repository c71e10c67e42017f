-- ===== src/Timeline/Duplicates.antt =====
-- What `upsert` drops before it places its row (priv/ui/js/timeline.js).
use wiregrid.Base.{
  is_some, ap, [], ◌∷◌, ◌++◌, if◌then◌else◌, ◌≡◌, refl, sym, ◌∙◌, String, ◌≢◌, Option, none, some,
  arith, if_pos, if_neg, String_discrete, false, Option-cases, inl, inr, ◌⊎◌, or_else,
}
use wiregrid.Base.JsMap.{JsMap, Distinct, set, has, get, delete, get-delete_self, get-delete_ne}
use wiregrid.Timeline.Types.{Node, Message, Timeline}
use wiregrid.Timeline.Index.{forget, detach, same_text}
use wiregrid.Timeline.Ops.{nonce_target, old_id_of, find_row, drop_duplicate}
use wiregrid.Timeline.Rows.{rename_all, rename_all_absent}
use wiregrid.Timeline.Inv.{HasInv, drop-HasInv}

module _ {A : Type 0} where
  -- The id that the nonce points at.
  abbrev pub pointed : Message A → Timeline A → Option String
  pointed message t = elim message.nonce [ none ↦ none | some q ↦ get String_discrete q t.nonces ]

  -- The id of the row that gives its place to the message's: that of the message, if it has a row,
  -- else that of its nonce.
  abbrev pick : Option String → JsMap String (Node A) → Option String → Option String
  pick none l target = target
  pick (some id) l target = elim (get String_discrete id l) [ none ↦ target | some n ↦ some id ]

  abbrev pub chosen : Message A → Timeline A → Option String
  chosen message t = pick message.id t.messages (pointed message t)

  -- The entries without that of the nonce, if another row gives its place.
  abbrev pub others : Option String → Option String → JsMap String (Node A) → JsMap String (Node A)
  others none old_id l = l
  others (some id) old_id l = if same_text (some id) old_id then l else delete String_discrete id l

  -- The row goes to the place that is given, or to the end.
  abbrev pub entered : Option String → Node A → JsMap String (Node A) → JsMap String (Node A)
  entered none node l = l ++ (node.message_id, node) ∷ []
  entered (some j) node l = rename_all l j node

  pub pointed_target :
      (message : Message A) (t : Timeline A) → nonce_target message.nonce t ≡ pointed message t
  unfolding nonce_target
  pointed_target message t = elim (Option-cases message.nonce) [
    | inl f ↦ rw (nonce_target, f) refl
    | inr (q, f) ↦ rw (nonce_target, f) refl
  ]

  picked :
      (given : Option String) (l : JsMap String (Node A)) (target : Option String)
      → (elim given [
        | none ↦ target
        | some id ↦ if has String_discrete id l then some id else target
      ])
        ≡ pick given l target
  picked none l target = refl
  picked (some id) l target = found_or (get String_discrete id l)
    where
      found_or :
          (o : Option (Node A))
          → (if is_some o then some id else target) ≡ elim o [ none ↦ target | some n ↦ some id ]
      found_or none = refl
      found_or (some n) = refl

  pub chosen_old : (message : Message A) (t : Timeline A) → old_id_of message t ≡ chosen message t
  unfolding old_id_of
  chosen_old message t =
      picked message.id t.messages (nonce_target message.nonce t)
      ∙ ap (pick message.id t.messages) (pointed_target message t)

  -- A value that is set under a key that is there is renamed to that key.
  pub set_renamed :
      (id : String) (n node : Node A) (l : JsMap String (Node A))
      → Distinct l
      → id ≡ node.message_id
      → get String_discrete id l ≡ some n
      → set String_discrete id node l ≡ rename_all l id node
  unfolding set rename_all get
  set_renamed id n node [] d f e = absurd (ground arith)
  set_renamed id n node ((k, v) ∷ l) d f e = elim (String_discrete k id) [
    | yes p ↦
        let alone : rename_all l id node ≡ l = rename_all_absent id node l (rw (← p) d.0) in
        ground (arith, f, alone)
    | no p ↦ ground (arith, set_renamed id n node l d.1 f)
  ]

  -- What dropping the optimistic row leaves.
  pub record Dropped (target old_id : Option String) (t t1 : Timeline A) : Type 0 where
    pub kept : t1.messages ≡ others target old_id t.messages
    pub inv : HasInv t1
    pub limit_kept : t1.limit ≡ t.limit
    pub next_kept : t1.next_ref ≡ t.next_ref
    pub absent :
        (q : String)
        → get String_discrete q t.messages ≡ none
        → get String_discrete q t1.messages ≡ none
    pub found : find_row old_id t1 ≡ find_row old_id t

  same-Dropped :
      (target old_id : Option String) (t : Timeline A)
      → HasInv t
      → others target old_id t.messages ≡ t.messages
      → Dropped target old_id t t
  same-Dropped target old_id t v same = record {
    kept = sym same;
    inv = v;
    limit_kept = refl;
    next_kept = refl;
    absent = λ q e. e;
    found = refl;
  }

  delete_absent_too :
      (id q : String) (l : JsMap String (Node A))
      → get String_discrete q l ≡ none
      → get String_discrete q (delete String_discrete id l) ≡ none
  delete_absent_too id q l e = elim (String_discrete q id) [
    | yes p ↦ rw p (get-delete_self String_discrete id l)
    | no p ↦ get-delete_ne String_discrete id q l p ∙ e
  ]

  drop-Dropped :
      (id : String) (node : Node A) (old_id : Option String) (t : Timeline A)
      → HasInv t
      → get String_discrete id t.messages ≡ some node
      → ((j : String) → old_id ≡ some j → j ≢ id)
      → same_text (some id) old_id ≡ false
      → Dropped (some id) old_id t (detach node (forget id node t))
  unfolding detach forget find_row
  drop-Dropped id node old_id t v e ne apart = record {
    kept = rw apart refl;
    inv = drop-HasInv id node t v e;
    limit_kept = refl;
    next_kept = refl;
    absent = λ q h. delete_absent_too id q t.messages h;
    found = found_of old_id ne;
  }
    where
      found_of :
          (o : Option String)
          → ((j : String) → o ≡ some j → j ≢ id)
          → find_row o (detach node (forget id node t)) ≡ find_row o t
      found_of none h = refl
      found_of (some j) h = get-delete_ne String_discrete id j t.messages (h j refl)

  pub drop_duplicate-Dropped :
      (target old_id : Option String) (t : Timeline A)
      → HasInv t
      → ((j : String)
          → target ≡ some j
          → (n : Node A) × (get String_discrete j t.messages ≡ some n))
      → (t1 : Timeline A) × (drop_duplicate target old_id t ≡ some t1) × Dropped target old_id t t1
  unfolding drop_duplicate same_text
  drop_duplicate-Dropped none old_id t v h = (t, refl, same-Dropped none old_id t v refl)
  drop_duplicate-Dropped (some id) none t v h =
      let (n, e) = h id refl in
      (
        detach n (forget id n t),
        rw (drop_duplicate, e) refl,
        drop-Dropped id n none t v e (λ j p. absurd (ground arith)) refl,
      )
  drop_duplicate-Dropped (some id) (some j) t v h = elim (String_discrete id j) [
    | yes p ↦ (
      t,
      rw (drop_duplicate, same_text, if_pos (String_discrete id j) p) refl,
      same-Dropped (some id) (some j) t v (rw (same_text, if_pos (String_discrete id j) p) refl),
    )
    | no p ↦
        let (n, e) = h id refl in
        (
          detach n (forget id n t),
          rw (drop_duplicate, same_text, if_neg (String_discrete id j) p, e) refl,
          drop-Dropped id n (some j) t v e (λ k q. ground arith)
              (if_neg (String_discrete id j) p _ _),
        )
  ]

  -- What a nonce points at is there.
  pub target_there :
      (nonce : Option String) (t : Timeline A) (j : String)
      → HasInv t
      → nonce_target nonce t ≡ some j
      → (n : Node A) × (get String_discrete j t.messages ≡ some n)
  unfolding nonce_target
  target_there none t j v e = absurd (ground arith)
  target_there (some q) t j v e = let (n, there, _) = v.linked q j e in (n, there)

  -- Either the message's id has a row, or it has none and the nonce decides.
  pub old_id_cases :
      (uid : String) (message : Message A) (t : Timeline A)
      → (message.id ≡ none → get String_discrete uid t.messages ≡ none)
      → ((n : Node A) × (old_id_of message t ≡ some (or_else message.id uid))
          × (get String_discrete (or_else message.id uid) t.messages ≡ some n))
        ⊎ ((get String_discrete (or_else message.id uid) t.messages ≡ none)
            × (old_id_of message t ≡ nonce_target message.nonce t))
  unfolding old_id_of
  old_id_cases uid message t h = elim (Option-cases message.id) [
    | inl e ↦ inr (rw (e) (h e), rw (old_id_of, e) refl)
    | inr (id, e) ↦ elim (Option-cases (get String_discrete id t.messages)) [
      | inl f ↦ inr (rw (e) f, rw (old_id_of, e, f) refl)
      | inr (n, f) ↦ inl (n, rw (old_id_of, e, f) refl, rw (e) f)
    ]
  ]
