-- ===== src/Timeline/Eviction.antt =====
-- `trim` and `remove` (priv/ui/js/timeline.js).
use wiregrid.Base.{
  ap, sym, subst, Bool-cases, if◌then◌else◌, ℕ, zero, suc, ◌+◌, ◌<◌, ◌≤◌, ◌≡◌, refl, ◌∙◌, String,
  ◌≢◌, none, some, [], ◌∷◌, arith, if_pos, if_either, String_discrete, true, false, ltb, length,
  Option-cases, inl, inr, ◌↔◌,
}
use wiregrid.Base.JsMap.{
  Distinct, delete_absent, JsMap, get, delete, get-delete_self, get-delete_ne,
}
use wiregrid.Timeline.Types.{Node, Timeline}
use wiregrid.Timeline.Index.{forget, detach, evict, trim_loop, trim}
use wiregrid.Timeline.Ops.{remove}
use wiregrid.Timeline.Inv.{HasInv, drop-HasInv}

module _ {A : Type 0} where
  length-delete_le :
      (id : String) (l : JsMap String (Node A)) → length (delete String_discrete id l) ≤ length l
  unfolding delete
  length-delete_le id [] = omega arith
  length-delete_le id ((k, v) ∷ l) = ground (arith, length-delete_le id l)

  evict-HasInv :
      (l : JsMap String (Node A)) (t : Timeline A) → t.messages ≡ l → HasInv t → HasInv (evict l t)
  unfolding evict get
  evict-HasInv [] t e v = v
  evict-HasInv ((id, node) ∷ l) t e v =
      drop-HasInv id node t v (rw e (if_pos (String_discrete id id) refl _ _))

  evict-length :
      (l : JsMap String (Node A)) (t : Timeline A)
      → t.messages ≡ l
      → ((evict l t).limit ≡ t.limit)
        × (length (evict l t).messages ≤ length l)
        × (0 < length l → length (evict l t).messages < length l)
  unfolding evict detach forget delete
  evict-length [] t e = (refl, rw e (omega arith), λ h. absurd (omega arith))
  evict-length ((id, node) ∷ l) t e =
      let less : length (delete String_discrete id t.messages) < suc (length l) =
        rw (e, if_pos (String_discrete id id) refl) (omega (arith, length-delete_le id l)) in
      (refl, omega arith, λ _. less)

  pub trim_loop-HasInv : (fuel : ℕ) (t : Timeline A) → HasInv t → HasInv (trim_loop fuel t)
  unfolding trim_loop
  trim_loop-HasInv zero t v = v
  trim_loop-HasInv (suc fuel) t v =
      if_either HasInv (ltb t.limit (length t.messages))
        (λ _. trim_loop-HasInv fuel (evict t.messages t) (evict-HasInv t.messages t refl v))
        (λ _. v)

  trim_loop-limit : (fuel : ℕ) (t : Timeline A) → (trim_loop fuel t).limit ≡ t.limit
  unfolding trim_loop
  trim_loop-limit zero t = refl
  trim_loop-limit (suc fuel) t =
      if_either (λ (u : Timeline A). u.limit ≡ t.limit) (ltb t.limit (length t.messages))
        (λ _. trim_loop-limit fuel (evict t.messages t) ∙ (evict-length t.messages t refl).0)
        (λ _. refl)

  trim_loop-bound :
      (fuel : ℕ) (t : Timeline A)
      → length t.messages ≤ t.limit + fuel
      → length (trim_loop fuel t).messages ≤ t.limit
  unfolding trim_loop
  trim_loop-bound zero t h = omega arith
  trim_loop-bound (suc fuel) t h =
      if_either (λ (u : Timeline A). length u.messages ≤ t.limit) (ltb t.limit (length t.messages))
        (λ e.
          let (same, _, less) = evict-length t.messages t refl in
          let over : t.limit < length t.messages = ground (arith, e) in
          let rest =
            trim_loop-bound fuel (evict t.messages t) (omega (arith, less (omega arith))) in
          omega arith)
        (λ e. ground (arith, e))

  pub trim-HasInv : (t : Timeline A) → HasInv t → HasInv (trim t)
  unfolding trim
  trim-HasInv t v = trim_loop-HasInv (length t.messages) t v

  -- The rounds are enough: what is left is within the limit.
  pub trim-limit :
      (t : Timeline A) → ((trim t).limit ≡ t.limit) × (length (trim t).messages ≤ (trim t).limit)
  unfolding trim
  trim-limit t =
      let same = trim_loop-limit (length t.messages) t in
      let bound = trim_loop-bound (length t.messages) t (omega arith) in (same, omega arith)

  -- As many entries as fit, the last ones.
  abbrev pub newest : ℕ → JsMap String (Node A) → JsMap String (Node A)
  newest limit [] = []
  newest limit (e ∷ l) = if ltb limit (suc (length l)) then newest limit l else e ∷ l

  evict-messages :
      (id : String) (node : Node A) (l : JsMap String (Node A)) (t : Timeline A)
      → Distinct ((id, node) ∷ l)
      → t.messages ≡ (id, node) ∷ l
      → (evict ((id, node) ∷ l) t).messages ≡ l
  unfolding evict detach forget delete
  evict-messages id node l t d e =
      rw (e, if_pos (String_discrete id id) refl) (delete_absent String_discrete id l d.0)

  trim_loop-newest :
      (l : JsMap String (Node A)) (t : Timeline A)
      → t.messages ≡ l
      → Distinct l
      → (trim_loop (length l) t).messages ≡ newest t.limit l
  unfolding trim_loop
  trim_loop-newest [] t e d = e
  trim_loop-newest ((id, node) ∷ l) t e d =
      let all = (id, node) ∷ l in
      subst
        (λ m.
          (if ltb t.limit (length m) then trim_loop (length l) (evict m t) else t).messages
          ≡ newest t.limit all)
        (sym e)
        (elim (Bool-cases (ltb t.limit (suc (length l)))) [
          | inl over ↦
              let rest = trim_loop-newest l (evict all t) (evict-messages id node l t d e) d.1 in
              rw over (rest ∙ ap (λ n. newest n l) (evict-length all t e).0)
          | inr fits ↦ rw fits e
        ])

  pub trim-newest :
      (t : Timeline A) → Distinct t.messages → (trim t).messages ≡ newest t.limit t.messages
  unfolding trim
  trim-newest t d = trim_loop-newest t.messages t refl d

  remove_absent :
      (id : String) (t : Timeline A)
      → get String_discrete id t.messages ≡ none
      → remove id t ≡ (t, false)
  unfolding remove
  remove_absent id t e = rw (remove, e) refl

  remove_there :
      (id : String) (node : Node A) (t : Timeline A)
      → get String_discrete id t.messages ≡ some node
      → remove id t ≡ (detach node (forget id node t), true)
  unfolding remove
  remove_there id node t e = rw (remove, e) refl

  -- If the indexes of a timeline agree with its document, they still do after `remove`, which says
  -- whether there was a row of the id, after which there is none, and leaves the entries of other ids.
  pub remove-Row :
      (id : String) (t : Timeline A)
      → HasInv t
      → HasInv (remove id t).0
        × (get String_discrete id (remove id t).0.messages ≡ none)
        × (((remove id t).1 ≡ false) ↔ (get String_discrete id t.messages ≡ none))
        × ((other_id : String)
            → other_id ≢ id
            → get String_discrete other_id (remove id t).0.messages
              ≡ get String_discrete other_id t.messages)
  unfolding detach forget
  remove-Row id t v = elim (Option-cases (get String_discrete id t.messages)) [
    | inl e ↦ rw (remove_absent id t e) (v, e, (λ _. e, λ _. refl), λ q h. refl)
    | inr (node, e) ↦ rw (remove_there id node t e) (
      drop-HasInv id node t v e,
      get-delete_self String_discrete id t.messages,
      (λ p. absurd (ground arith), λ p. absurd (ground arith)),
      λ q h. get-delete_ne String_discrete id q t.messages h,
    )
  ]
