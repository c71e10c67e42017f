-- ===== src/Timeline/Runs.antt =====
-- Runs of a timeline through all its operations (priv/ui/js/timeline.js).
use wiregrid.Base.{
  ◌||◌, if_either, if◌then◌else◌, Bool-cases, ℕ, suc, ◌≤◌, ◌<◌, ◌≡◌, refl, sym, ap, subst, ◌∙◌,
  String, Bool, true, false, Option, none, some, List, [], ◌∷◌, length, All, arith, String_discrete,
  Option-cases, ◌⊎◌, inl, inr, if_pos,
}
use wiregrid.Base.JsMap.{JsMap, get, delete, values}
use wiregrid.Timeline.Types.{Node, Child, Message, Amount, Layout, returned, thrown, Timeline}
use wiregrid.Timeline.Dom.{rows}
use wiregrid.Timeline.Index.{same_text, create, adopt, forget, detach, remember}
use wiregrid.Timeline.Ops.{upsert, remove, detach_all, clear, destroy}
use wiregrid.Timeline.Rows.{index, DistinctRefs, drop_ref, rows-remove_node, drop_ref_absent}
use wiregrid.Timeline.Inv.{HasInv}
use wiregrid.Timeline.Eviction.{remove-Row}
use wiregrid.Timeline.Duplicates.{others, chosen, pointed}
use wiregrid.Timeline.Upserts.{upsert-Row}
use wiregrid.Timeline.Kept.{after, upsert-kept, upsert_dead, trim-kept}
use wiregrid.Timeline.Starting.{create-HasInv}

-- The calls of the object that `createTimeline` returns; `upserted` has what `uid` would return.
pub data Operation (A : Type 0) : Type 0 where
  upserted : String → Message A → Operation A
  removed : String → Operation A
  cleared torn_down : Operation A

module _ {A : Type 0} where
  abbrev pub Alive : Timeline A → Type 0
  Alive t = HasInv t × (t.destroyed ≡ false) × (length t.messages ≤ t.limit)

  -- What is left of a timeline that is destroyed.
  abbrev pub Dead : Timeline A → Type 0
  Dead t = (t.destroyed ≡ true) × (t.messages ≡ []) × (t.nonces ≡ [])

  unfoldable pub operate : Layout A → Operation A → Timeline A → Timeline A
  operate layout (upserted uid message) t = after (upsert layout uid message t)
  operate layout (removed id) t = (remove id t).0
  operate layout cleared t = clear t
  operate layout torn_down t = destroy t

  unfoldable pub operate_all : Layout A → List (Operation A) → Timeline A → Timeline A
  operate_all layout [] t = t
  operate_all layout (e ∷ l) t = operate_all layout l (operate layout e t)

  -- The id that `uid` makes is new where the message has none.
  abbrev pub FreshAt : Operation A → Timeline A → Type 0
  FreshAt (upserted uid message) t = message.id ≡ none → get String_discrete uid t.messages ≡ none
  FreshAt _ t = Unit {0}

  abbrev pub Fresh : Layout A → List (Operation A) → Timeline A → Type 0
  Fresh layout [] t = Unit {0}
  Fresh layout (e ∷ l) t = FreshAt e t × Fresh layout l (operate layout e t)

  length-delete_le :
      (id : String) (l : JsMap String (Node A)) → length (delete String_discrete id l) ≤ length l
  unfolding delete
  length-delete_le id [] = omega arith
  length-delete_le id ((j, v) ∷ l) = ground (arith, length-delete_le id l)

  length-others_le :
      (target old_id : Option String) (l : JsMap String (Node A))
      → length (others target old_id l) ≤ length l
  length-others_le none old_id l = omega arith
  length-others_le (some id) old_id l =
      if_either (λ m. length m ≤ length l) (same_text (some id) old_id) (λ _. omega arith)
        (λ _. length-delete_le id l)

  pub upsert-Alive :
      (layout : Layout A) (uid : String) (message : Message A) (t : Timeline A)
      → Alive t
      → (message.id ≡ none → get String_discrete uid t.messages ≡ none)
      → Alive (after (upsert layout uid message t))
  upsert-Alive layout uid message t (v, d, b) fresh =
      let limit =
        upsert-kept (λ (s : Timeline A). s.limit) (λ s c m n r top. refl) layout uid message t in
      let there =
        upsert-kept (λ (s : Timeline A). s.destroyed) (λ s c m n r top. refl) layout uid message
          t in
      let (t', w, how) = upsert-Row layout uid message t v d fresh in
      elim how [
        | inl (r, e, m, bound) ↦
            let same : after (upsert layout uid message t) ≡ t' = ap after e in
            (
              subst HasInv (sym same) w,
              there ∙ d,
              subst
                  (λ (u : Timeline A).
                    length u.messages ≤ (after (upsert layout uid message t)).limit)
                  (sym same) (omega (arith, bound, limit)),
            )
        | inr (r, e, m) ↦
            let same : after (upsert layout uid message t) ≡ t' = ap after e in
            let fewer = length-others_le (pointed message t) (chosen message t) t.messages in
            (
              subst HasInv (sym same) w,
              there ∙ d,
              subst
                  (λ (u : Timeline A).
                    length u.messages ≤ (after (upsert layout uid message t)).limit)
                  (sym same) (omega (arith, ap length m, fewer, b, limit)),
            )
      ]

  detach_all-same :
      (nodes : List (Node A)) (t : Timeline A)
      → ((detach_all nodes t).destroyed ≡ t.destroyed)
        × ((detach_all nodes t).limit ≡ t.limit)
        × ((detach_all nodes t).next_ref ≡ t.next_ref)
  unfolding detach_all detach
  detach_all-same [] t = (refl, refl, refl)
  detach_all-same (n ∷ nodes) t = detach_all-same nodes (detach n t)

  rows-detach_all :
      (nodes : List (Node A)) (t : Timeline A)
      → DistinctRefs nodes
      → rows t.children ≡ nodes
      → rows (detach_all nodes t).children ≡ []
  unfolding detach_all detach drop_ref
  rows-detach_all [] t d e = e
  rows-detach_all (n ∷ nodes) t d e =
      rows-detach_all nodes (detach n t) d.1
        (rows-remove_node n.ref t.children ∙ (ap (drop_ref n.ref) e ∙ first_gone))
    where
      first_gone : drop_ref n.ref (n ∷ nodes) ≡ nodes
      first_gone = rw (if_pos _ refl) (drop_ref_absent n.ref nodes d.0)

  values-index : (l : List (Node A)) → values (index l) ≡ l
  values-index [] = refl
  values-index (n ∷ l) = ap (λ r. n ∷ r) (values-index l)

  clear-Alive : (t : Timeline A) → Alive t → Alive (clear t) × (rows (clear t).children ≡ [])
  unfolding clear get
  clear-Alive t (v, d, b) =
      let all = values t.messages in
      let shown : rows t.children ≡ all =
        sym (ap values v.indexed ∙ values-index (rows t.children)) in
      let gone = rows-detach_all all t (subst DistinctRefs shown v.refs) shown in
      (
        (
          record {
            indexed = rw gone refl;
            ids = tt;
            refs = rw gone tt;
            older = rw gone tt;
            linked = λ q j h. absurd (ground arith);
          },
          (detach_all-same all t).0 ∙ d,
          omega arith,
        ),
        gone,
      )

  -- Bounded and in agreement, or destroyed and empty.
  abbrev pub Whole : Timeline A → Type 0
  Whole t = Alive t ⊎ Dead t

  clear-Dead : (t : Timeline A) → Dead t → Dead (clear t)
  unfolding clear
  clear-Dead t (d, m, n) = ((detach_all-same (values t.messages) t).0 ∙ d, refl, refl)

  pub remove_missing :
      (id : String) (t : Timeline A)
      → get String_discrete id t.messages ≡ none
      → (remove id t).0 ≡ t
  unfolding remove
  remove_missing id t e = rw (remove, e) refl

  pub remove_present :
      (id : String) (node : Node A) (t : Timeline A)
      → get String_discrete id t.messages ≡ some node
      → (remove id t).0 ≡ detach node (forget id node t)
  unfolding remove
  remove_present id node t e = rw (remove, e) refl

  remove-Alive : (id : String) (t : Timeline A) → Alive t → Alive (remove id t).0
  unfolding detach forget
  remove-Alive id t (v, d, b) = elim (Option-cases (get String_discrete id t.messages)) [
    | inl e ↦ subst Alive (sym (remove_missing id t e)) (v, d, b)
    | inr (node, e) ↦
        let same = remove_present id node t e in
        (
          (remove-Row id t v).0,
          ap (λ (u : Timeline A). u.destroyed) same ∙ d,
          subst (λ (u : Timeline A). length u.messages ≤ u.limit) (sym same)
              (omega (arith, b, length-delete_le id t.messages)),
        )
  ]

  pub remove-destroyed : (id : String) (t : Timeline A) → (remove id t).0.destroyed ≡ t.destroyed
  unfolding detach forget
  remove-destroyed id t = elim (Option-cases (get String_discrete id t.messages)) [
    | inl e ↦ ap (λ (u : Timeline A). u.destroyed) (remove_missing id t e)
    | inr (node, e) ↦ ap (λ (u : Timeline A). u.destroyed) (remove_present id node t e)
  ]

  remove-Dead : (id : String) (t : Timeline A) → Dead t → Dead (remove id t).0
  unfolding get
  remove-Dead id t (d, m, n) =
      subst Dead
        (sym (remove_missing id t (subst (λ l. get String_discrete id l ≡ none) (sym m) refl)))
        (d, m, n)

  pub operate-Whole :
      (layout : Layout A) (e : Operation A) (t : Timeline A)
      → Whole t
      → FreshAt e t
      → Whole (operate layout e t)
  unfolding operate destroy
  operate-Whole layout (upserted uid message) t (inl v) f =
      inl (upsert-Alive layout uid message t v f)
  operate-Whole layout (upserted uid message) t (inr v) f =
      rw (upsert_dead layout uid message t v.0) (inr v)
  operate-Whole layout (removed id) t (inl v) f = inl (remove-Alive id t v)
  operate-Whole layout (removed id) t (inr v) f = inr (remove-Dead id t v)
  operate-Whole layout cleared t (inl v) f = inl (clear-Alive t v).0
  operate-Whole layout cleared t (inr v) f = inr (clear-Dead t v)
  operate-Whole layout torn_down t v f = inr (refl, refl, refl)

  run-Whole :
      (layout : Layout A) (l : List (Operation A)) (t : Timeline A)
      → Whole t
      → Fresh layout l t
      → Whole (operate_all layout l t)
  unfolding operate_all
  run-Whole layout [] t v f = v
  run-Whole layout (e ∷ l) t v f =
      run-Whole layout l (operate layout e t) (operate-Whole layout e t v f.0) f.1

  adopt_alive : (l : List (Node A)) (t : Timeline A) → (adopt l t).destroyed ≡ t.destroyed
  unfolding adopt remember detach forget
  adopt_alive [] t = refl
  adopt_alive (n ∷ l) t = elim (Option-cases (get String_discrete n.message_id t.messages)) [
    | inl e ↦ rw (adopt, e) (adopt_alive l (remember n t))
    | inr (old, e) ↦
        rw (adopt, e) (adopt_alive l (remember n (detach old (forget n.message_id old t))))
  ]

  length-index : (l : List (Node A)) → length (index l) ≡ length l
  length-index [] = refl
  length-index (n ∷ l) = ap suc (length-index l)

  create-Alive :
      (amount : Amount) (auto_scroll : Bool) (children : List (Child A)) (role live : Option String)
      (scroll_top next_ref : ℕ)
      → DistinctRefs (rows children)
      → All (λ n. n.ref < next_ref) (rows children)
      → Alive (create amount auto_scroll children role live scroll_top next_ref)
  unfolding create
  create-Alive amount auto_scroll children role live scroll_top next_ref d a =
      let t = create amount auto_scroll children role live scroll_top next_ref in
      let (v, low, high, fits) =
        create-HasInv amount auto_scroll children role live scroll_top next_ref d a in
      (
        v,
        trim-kept (λ (s : Timeline A). s.destroyed) (λ s c m n r top. refl) _
            ∙ adopt_alive (rows children) _,
        omega (arith, ap length v.indexed, length-index (rows t.children), fits),
      )

  -- Some operation is `destroy`.
  abbrev pub torn : List (Operation A) → Bool
  torn [] = false
  torn (torn_down ∷ l) = true
  torn (_ ∷ l) = torn l

  pub operate-destroyed :
      (layout : Layout A) (e : Operation A) (t : Timeline A)
      → (operate layout e t).destroyed ≡ (torn (e ∷ []) || t.destroyed)
  unfolding operate clear destroy
  operate-destroyed layout (upserted uid message) t =
      upsert-kept (λ (s : Timeline A). s.destroyed) (λ s c m n r top. refl) layout uid message t
  operate-destroyed layout (removed id) t = remove-destroyed id t
  operate-destroyed layout cleared t = (detach_all-same (values t.messages) t).0
  operate-destroyed layout torn_down t = refl

  run-destroyed :
      (layout : Layout A) (l : List (Operation A)) (t : Timeline A)
      → (operate_all layout l t).destroyed ≡ (torn l || t.destroyed)
  unfolding operate_all
  run-destroyed layout [] t = refl
  run-destroyed layout (e ∷ l) t =
      run-destroyed layout l (operate layout e t)
      ∙ (ap (λ b. torn l || b) (operate-destroyed layout e t) ∙ torn_first e)
    where
      torn_first :
          (e : Operation A)
          → (torn l || (torn (e ∷ []) || t.destroyed)) ≡ (torn (e ∷ l) || t.destroyed)
      torn_first (upserted uid message) = refl
      torn_first (removed id) = refl
      torn_first cleared = refl
      torn_first torn_down = elim (Bool-cases (torn l)) [ inl e ↦ rw e refl | inr e ↦ rw e refl ]

  -- In every run of `upsert`, `remove`, `clear` and `destroy` of a timeline that `createTimeline`
  -- made of a container of different elements, with ids that `uid` makes new: it is destroyed exactly
  -- if `destroy` was called. If it was not, the indexes agree with the document and have no more
  -- entries than the limit, and `upsert` throws only with `renderMessage`; if it was, both indexes are
  -- empty, and `upsert` throws and changes nothing.
  pub operate_all-Whole :
      (layout : Layout A) (amount : Amount) (auto_scroll : Bool) (children : List (Child A))
      (role live : Option String) (scroll_top next_ref : ℕ) (l : List (Operation A))
      → DistinctRefs (rows children)
      → All (λ n. n.ref < next_ref) (rows children)
      → Fresh layout l (create amount auto_scroll children role live scroll_top next_ref)
      → let t =
          operate_all layout l (create amount auto_scroll children role live scroll_top next_ref) in
        (torn l ≡ false
          → Alive t
            × ((uid : String) (message : Message A)
                → FreshAt (upserted uid message) t
                → (t' : Timeline A) × (upsert layout uid message t
                    ≡ (if layout.renders message then returned t' else thrown t'))))
        × (torn l ≡ true
            → Dead t
              × ((uid : String) (message : Message A) → upsert layout uid message t ≡ thrown t))
  operate_all-Whole layout amount auto_scroll children role live scroll_top next_ref l d a f =
      let start = create amount auto_scroll children role live scroll_top next_ref in
      let alive = create-Alive amount auto_scroll children role live scroll_top next_ref d a in
      let t = operate_all layout l start in
      let whole = run-Whole layout l start (inl alive) f in
      let flag : t.destroyed ≡ torn l =
        run-destroyed layout l start ∙ (ap (λ b. torn l || b) alive.1 ∙ or_false (torn l)) in
      (
        λ e.
            let v = still_alive t whole (flag ∙ e) in
            (v, λ uid message h. upsert_attempt layout uid message t v h),
        λ e. (
          now_dead t whole (flag ∙ e),
          λ uid message. upsert_dead layout uid message t (flag ∙ e),
        ),
      )
    where
      or_false : (b : Bool) → (b || false) ≡ b
      or_false true = refl
      or_false false = refl

      still_alive : (t : Timeline A) → Whole t → t.destroyed ≡ false → Alive t
      still_alive t (inl v) e = v
      still_alive t (inr v) e = absurd (ground (arith, v.0, e))

      now_dead : (t : Timeline A) → Whole t → t.destroyed ≡ true → Dead t
      now_dead t (inl v) e = absurd (ground (arith, v.1, e))
      now_dead t (inr v) e = v

      upsert_attempt :
          (layout : Layout A) (uid : String) (message : Message A) (t : Timeline A)
          → Alive t
          → FreshAt (upserted uid message) t
          → (t' : Timeline A) × (upsert layout uid message t
              ≡ (if layout.renders message then returned t' else thrown t'))
      upsert_attempt layout uid message t (v, s, b) h =
          let (t', w, how) = upsert-Row layout uid message t v s h in
          elim how [ inl (r, e, m, bound) ↦ (t', rw r e) | inr (r, e, m) ↦ (t', rw r e) ]
