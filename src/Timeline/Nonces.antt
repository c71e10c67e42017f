-- ===== src/Timeline/Nonces.antt =====
-- The index by nonce points at rows that carry the nonce (priv/ui/js/timeline.js).
use wiregrid.Base.{
  ◌≡◌, subst, ◌∙◌, String, ◌≢◌, ◌⊎◌, inl, inr, Option, none, some, [], ◌∷◌, arith, if_pos, if_neg,
  String_discrete, true, false, Bool, if◌then◌else◌,
}
use wiregrid.Base.JsMap.{
  JsMap, get, set, delete, get-set_self, get-set_ne, get-delete_self, get-delete_ne,
  get_of_get-delete,
}
use wiregrid.Timeline.Types.{Node, Timeline}
use wiregrid.Timeline.Index.{same_text, forget_nonce, remember_nonce, remember}
use wiregrid.Timeline.Ops.{rebuild}

-- What is read after `remember` is the new pair, or was there.
pub remembered :
    (id : String) (nonce : Option String) (ns : JsMap String String) (q : String) {j : String}
    → get String_discrete q (remember_nonce id nonce ns) ≡ some j
    → ((nonce ≡ some q) × (j ≡ id)) ⊎ (get String_discrete q ns ≡ some j)
unfolding remember_nonce
remembered id none ns q h = inr h
remembered id (some n) ns q h = elim (String_discrete q n) [
  | yes p ↦ inl (ground arith, ground (arith, get-set_self String_discrete n id ns))
  | no p ↦ inr (ground (arith, get-set_ne String_discrete n q id ns p))
]

-- What is read after `forget` was there, and is not the pair that it forgets.
forgotten :
    (id : String) (nonce : Option String) (ns : JsMap String String) (q : String) {j : String}
    → get String_discrete q (forget_nonce id nonce ns) ≡ some j
    → get String_discrete q ns ≡ some j
unfolding forget_nonce
forgotten id none ns q h = h
forgotten id (some n) ns q {j} h =
    forgotten_either (same_text (get String_discrete n ns) (some id)) h
  where
    forgotten_either :
        (b : Bool)
        → get String_discrete q (if b then delete String_discrete n ns else ns) ≡ some j
        → get String_discrete q ns ≡ some j
    forgotten_either true e = get_of_get-delete String_discrete n q ns e
    forgotten_either false e = e

forget_nonce_self :
    (id : String) (ns : JsMap String String) (q : String)
    → get String_discrete q (forget_nonce id (some q) ns) ≢ some id
unfolding forget_nonce same_text
forget_nonce_self id ns q h = ground (arith, get-delete_self String_discrete q ns)

module _ {A : Type 0} where
  abbrev pub Linked : JsMap String String → JsMap String (Node A) → Type 0
  Linked ns ms =
      (q j : String)
      → get String_discrete q ns ≡ some j
      → (n : Node A) × (get String_discrete j ms ≡ some n) × (n.nonce ≡ some q)

  pub forget-Linked :
      (id : String) (node : Node A) (ns : JsMap String String) (ms : JsMap String (Node A))
      → Linked ns ms
      → get String_discrete id ms ≡ some node
      → Linked (forget_nonce id node.nonce ns) (delete String_discrete id ms)
  forget-Linked id node ns ms v e q j h =
      let (n, there, carries) = v q j (forgotten id node.nonce ns q h) in
      elim (String_discrete j id) [
        | yes p ↦
            let same : n ≡ node = ground arith in
            let own : node.nonce ≡ some q = ground arith in
            absurd (forget_nonce_self id ns q (ground arith))
        | no p ↦ (n, get-delete_ne String_discrete id j ms p ∙ there, carries)
      ]

  -- A row that no nonce points at is entered with its own.
  pub remember-Linked :
      (node : Node A) (ns : JsMap String String) (ms : JsMap String (Node A))
      → Linked ns ms
      → ((q : String) → get String_discrete q ns ≢ some node.message_id)
      → Linked
          (remember_nonce node.message_id node.nonce ns)
          (set String_discrete node.message_id node ms)
  remember-Linked node ns ms v free q j h = elim (remembered node.message_id node.nonce ns q h) [
    | inl (own, e) ↦ (node, rw e (get-set_self String_discrete node.message_id node ms), own)
    | inr old ↦
        let (n, there, carries) = v q j old in
        let apart : j ≢ node.message_id = λ e. free q (ground arith) in
        (n, get-set_ne String_discrete node.message_id j node ms apart ∙ there, carries)
  ]

  pub unlinked_of_none :
      (id : String) (ns : JsMap String String) (ms : JsMap String (Node A))
      → Linked ns ms
      → get String_discrete id ms ≡ none
      → (q : String) → get String_discrete q ns ≢ some id
  unlinked_of_none id ns ms v e q h = let (n, there, _) = v q id h in ground arith

  pub rebuild-nonces :
      (l : JsMap String (Node A)) (old_id : String) (node : Node A) (t : Timeline A) (q : String)
      {j : String}
      → get String_discrete q (rebuild l old_id node t).nonces ≡ some j
      → ((node.nonce ≡ some q) × (j ≡ node.message_id)) ⊎ (get String_discrete q t.nonces ≡ some j)
  unfolding rebuild remember
  rebuild-nonces [] old_id node t q h = inr h
  rebuild-nonces ((k, v) ∷ l) old_id node t q {j} h = elim (String_discrete k old_id) [
    | yes p ↦
        let IH = rebuild-nonces l old_id node (remember node t) q (
          subst
            (λ (u : Timeline A). get String_discrete q (rebuild l old_id node u).nonces ≡ some j)
            (if_pos (String_discrete k old_id) p _ _) h) in
        elim IH [ inl e ↦ inl e | inr e ↦ remembered node.message_id node.nonce t.nonces q e ]
    | no p ↦
        rebuild-nonces l old_id node (record t { messages = set String_discrete k v t.messages }) q
          (subst
            (λ (u : Timeline A). get String_discrete q (rebuild l old_id node u).nonces ≡ some j)
            (if_neg (String_discrete k old_id) p _ _) h)
  ]
