-- ===== src/Timeline/Starting.antt =====
-- The rows that the container has at the start (priv/ui/js/timeline.js).
use wiregrid.Base.{
  ℕ, suc, false, or_else, ◌<◌, ◌≡◌, refl, sym, ap, ◌∙◌, subst, String, Option, none, some, List, [],
  ◌∷◌, ◌++◌, arith, length, inl, inr, Bool, ◌≤◌, All, map-append, append_assoc, append-nil,
  Option-cases, String_discrete,
}
use wiregrid.Base.JsMap.{
  get, delete, Distinct, set_new, set-Distinct, delete-Distinct, get-delete_self,
}
use wiregrid.Core.{clamp, clamp_bounds}
use wiregrid.Timeline.Types.{Node, Child, Amount, falsy, positive, negative, infinite, Timeline}
use wiregrid.Timeline.Dom.{rows}
use wiregrid.Timeline.Index.{create, adopt, trim, forget, detach, remember, row_limit}
use wiregrid.Timeline.Rows.{
  index, DistinctRefs, drop_ref, drop_ref_absent, rows-remove_node, index-drop_ref,
}
use wiregrid.Timeline.Nonces.{Linked, forget-Linked, remember-Linked, unlinked_of_none}
use wiregrid.Timeline.Inv.{HasInv, drop_ref-DistinctRefs, All-drop_ref}
use wiregrid.Timeline.Eviction.{trim-HasInv, trim-limit}

pub row_limit_bounds : (amount : Amount) → (1 ≤ row_limit amount) × (row_limit amount ≤ 20000)
unfolding row_limit clamp
row_limit_bounds falsy = clamp_bounds 2000 1 20000 (omega arith)
row_limit_bounds (positive n) = clamp_bounds n 1 20000 (omega arith)
row_limit_bounds negative = (omega arith, omega arith)
row_limit_bounds infinite = (omega arith, omega arith)

module _ {A : Type 0} where
  -- `kept` are the rows that were taken into the indexes, `l` those that are left.
  record Adopting (kept l : List (Node A)) (t : Timeline A) : Type 0 where
    standing : rows t.children ≡ kept ++ l
    indexed : t.messages ≡ index kept
    ids : Distinct t.messages
    refs : DistinctRefs (rows t.children)
    older : All (λ n. n.ref < t.next_ref) (rows t.children)
    linked : Linked t.nonces t.messages

  drop_ref-append :
      (r : ℕ) (xs ys : List (Node A)) → drop_ref r (xs ++ ys) ≡ drop_ref r xs ++ drop_ref r ys
  unfolding drop_ref
  drop_ref-append r [] ys = refl
  drop_ref-append r (n ∷ xs) ys = ground (arith, drop_ref-append r xs ys)

  All-left {κ} :
      (P : Node A → Type κ) (xs ys : List (Node A)) → All P (xs ++ ys) → All P xs × All P ys
  All-left P [] ys h = (tt, h)
  All-left P (x ∷ xs) ys h = let (a, b) = All-left P xs ys h.1 in ((h.0, a), b)

  left_distinct : (xs ys : List (Node A)) → DistinctRefs (xs ++ ys) → DistinctRefs xs
  left_distinct [] ys h = tt
  left_distinct (x ∷ xs) ys h =
      ((All-left (λ m. ¬ (m.ref ≡ x.ref)) xs ys h.0).0, left_distinct xs ys h.1)

  -- A row of the first part is none of the second.
  apart_of_get :
      (id : String) (n : Node A) (xs ys : List (Node A))
      → DistinctRefs (xs ++ ys)
      → get String_discrete id (index xs) ≡ some n
      → All (λ m. ¬ (m.ref ≡ n.ref)) ys
  unfolding get
  apart_of_get id n [] ys d e = absurd (ground arith)
  apart_of_get id n (x ∷ xs) ys d e = elim (String_discrete x.message_id id) [
    | yes p ↦
        let same : x ≡ n = ground arith in
        rw (← same) (All-left (λ m. ¬ (m.ref ≡ x.ref)) xs ys d.0).1
    | no p ↦ apart_of_get id n xs ys d.1 (ground arith)
  ]

  drop-Adopting :
      (id : String) (old : Node A) (kept l : List (Node A)) (t : Timeline A)
      → Adopting kept l t
      → get String_discrete id t.messages ≡ some old
      → Adopting (drop_ref old.ref kept) l (detach old (forget id old t))
  unfolding detach forget
  drop-Adopting id old kept l t v e =
      let gone = rows-remove_node old.ref t.children in
      let whole = subst DistinctRefs v.standing v.refs in
      let there = subst (λ m. get String_discrete id m ≡ some old) v.indexed e in
      record {
        standing =
            gone
            ∙ (ap (drop_ref old.ref) v.standing
                ∙ (drop_ref-append old.ref kept l
                    ∙ ap (λ r. drop_ref old.ref kept ++ r)
                        (drop_ref_absent old.ref l (apart_of_get id old kept l whole there))));
        indexed =
            ap (delete String_discrete id) v.indexed
            ∙ sym (
                index-drop_ref id old kept (left_distinct kept l whole)
                  (subst Distinct v.indexed v.ids) there);
        ids = delete-Distinct String_discrete id t.messages v.ids;
        refs = rw gone (drop_ref-DistinctRefs old.ref (rows t.children) v.refs);
        older = rw gone (All-drop_ref (λ n. n.ref < t.next_ref) old.ref (rows t.children) v.older);
        linked = forget-Linked id old t.nonces t.messages v.linked e;
      }

  remember-Adopting :
      (node : Node A) (kept l : List (Node A)) (t : Timeline A)
      → Adopting kept (node ∷ l) t
      → get String_discrete node.message_id t.messages ≡ none
      → Adopting (kept ++ node ∷ []) l (remember node t)
  unfolding remember
  remember-Adopting node kept l t v e = record {
    standing = v.standing ∙ sym (append_assoc kept (node ∷ []) l);
    indexed =
        set_new String_discrete node.message_id node t.messages e
        ∙ (ap (λ m. m ++ (node.message_id, node) ∷ []) v.indexed
            ∙ sym (map-append _ kept (node ∷ [])));
    ids = set-Distinct String_discrete node.message_id node t.messages v.ids;
    refs = v.refs;
    older = v.older;
    linked =
        remember-Linked node t.nonces t.messages v.linked
          (unlinked_of_none node.message_id t.nonces t.messages v.linked e);
  }

  adopt_new :
      (node : Node A) (l : List (Node A)) (t : Timeline A)
      → get String_discrete node.message_id t.messages ≡ none
      → adopt (node ∷ l) t ≡ adopt l (remember node t)
  unfolding adopt
  adopt_new node l t e = rw (adopt, e) refl

  adopt_again :
      (node old : Node A) (l : List (Node A)) (t : Timeline A)
      → get String_discrete node.message_id t.messages ≡ some old
      → adopt (node ∷ l) t ≡ adopt l (remember node (detach old (forget node.message_id old t)))
  unfolding adopt
  adopt_again node old l t e = rw (adopt, e) refl

  adopt-HasInv : (l kept : List (Node A)) (t : Timeline A) → Adopting kept l t → HasInv (adopt l t)
  unfolding adopt detach forget
  adopt-HasInv [] kept t v = record {
    indexed = v.indexed ∙ ap index (sym (v.standing ∙ append-nil kept));
    ids = v.ids;
    refs = v.refs;
    older = v.older;
    linked = v.linked;
  }
  adopt-HasInv (node ∷ l) kept t v =
      elim (Option-cases (get String_discrete node.message_id t.messages)) [
        | inl e ↦ subst HasInv (sym (adopt_new node l t e)) (
            adopt-HasInv l (kept ++ node ∷ []) (remember node t)
              (remember-Adopting node kept l t v e))
        | inr (old, e) ↦
            let t1 = detach old (forget node.message_id old t) in
            subst HasInv (sym (adopt_again node old l t e)) (
              adopt-HasInv l (drop_ref old.ref kept ++ node ∷ []) (remember node t1) (
                remember-Adopting node (drop_ref old.ref kept) l t1
                  (drop-Adopting node.message_id old kept (node ∷ l) t v e)
                  (get-delete_self String_discrete node.message_id t.messages)))
      ]

  length-index : (l : List (Node A)) → length (index l) ≡ length l
  length-index [] = refl
  length-index (n ∷ l) = ap suc (length-index l)

  adopt-limit : (l : List (Node A)) (t : Timeline A) → (adopt l t).limit ≡ t.limit
  unfolding adopt remember detach forget
  adopt-limit [] t = refl
  adopt-limit (node ∷ l) t = elim (Option-cases (get String_discrete node.message_id t.messages)) [
    | inl e ↦
        ap (λ (u : Timeline A). u.limit) (adopt_new node l t e) ∙ adopt-limit l (remember node t)
    | inr (old, e) ↦
        ap (λ (u : Timeline A). u.limit) (adopt_again node old l t e)
        ∙ adopt-limit l (remember node (detach old (forget node.message_id old t)))
  ]

  -- If the rows in the container are different elements, older than those that are still to be made,
  -- then in the timeline that `createTimeline` makes of it, even where rows share an id or a nonce,
  -- the indexes agree with the document, the limit is between 1 and 20000, and there are no more rows
  -- in the document than the limit.
  pub create-HasInv :
      (amount : Amount) (auto_scroll : Bool) (children : List (Child A)) (role live : Option String)
      (scroll_top next_ref : ℕ)
      → DistinctRefs (rows children)
      → All (λ n. n.ref < next_ref) (rows children)
      → HasInv (create amount auto_scroll children role live scroll_top next_ref)
        × (1 ≤ (create amount auto_scroll children role live scroll_top next_ref).limit)
        × ((create amount auto_scroll children role live scroll_top next_ref).limit ≤ 20000)
        × (length (rows (create amount auto_scroll children role live scroll_top next_ref).children)
            ≤ (create amount auto_scroll children role live scroll_top next_ref).limit)
  unfolding create get
  create-HasInv amount auto_scroll children role live scroll_top next_ref d a =
      let start : Timeline A = record {
        limit = row_limit amount;
        auto_scroll = auto_scroll;
        children = children;
        scroll_top = scroll_top;
        role = some (or_else role "log");
        aria_live = some (or_else live "polite");
        previous_role = role;
        previous_live = live;
        messages = [];
        nonces = [];
        destroyed = false;
        next_ref = next_ref;
      } in
      let adopted = adopt (rows children) start in
      let entered : HasInv adopted = adopt-HasInv (rows children) [] start (record {
        standing = refl;
        indexed = refl;
        ids = tt;
        refs = d;
        older = a;
        linked = λ q j h. absurd (ground arith);
      }) in
      let bound = trim-limit adopted in
      let range = row_limit_bounds amount in
      let same = adopt-limit (rows children) start in
      let agreed = trim-HasInv adopted entered in
      (
        agreed,
        omega (arith, bound.0, same, range.0),
        omega (arith, bound.0, same, range.1),
        subst (λ n. n ≤ (trim adopted).limit)
            (ap length agreed.indexed ∙ length-index (rows (trim adopted).children)) bound.1,
      )
