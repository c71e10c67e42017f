-- ===== src/Core/Store.antt =====
-- `createStore` of priv/ui/js/core.js. A listener is a number; listeners do not call the store back
-- before they return, but may throw: `throws id state` tells that the listener does when it is called
-- with the state.
use wiregrid.Base.{
  All, false, All-map, Option-cases, ◌⊎◌, inl, inr, if_either, true, Bool, List, Option, [], arith,
  if_neg, if_pos, if◌then◌else◌, ite, none, refl, some, ℕ, ℕ_discrete, ◌∷◌, ◌≡◌,
}
use wiregrid.Base.JsMap.{get}

-- `calls` has what the listeners were called with, the last call first.
pub record Store (S : Type 0) : Type 0 where
  pub state : S
  pub listeners : List ℕ
  pub calls : List (ℕ × S)

-- The argument of `set`: a function of the state, which may throw, or a state.
pub data Next (S : Type 0) : Type 0 where
  computed : (S → Option S) → Next S
  given : S → Next S

pub data StoreEvent (S : Type 0) : Type 0 where
  assign : Next S → StoreEvent S
  merge : S → StoreEvent S
  enter leave : ℕ → StoreEvent S

-- What the host has for copies: `structuredClone`, if there is one, and `JSON.parse` after
-- `JSON.stringify`. `is_object` tells a value of type "object" that is not null.
pub record Cloning (S : Type 0) : Type 0 where
  pub structured : Option (S → S)
  pub is_object : S → Bool
  pub through_json : S → S

unfoldable pub join : ℕ → List ℕ → List ℕ
join id [] = id ∷ []
join id (j ∷ l) = ite (ℕ_discrete j id) (j ∷ l) (j ∷ join id l)

unfoldable pub drop_listener : ℕ → List ℕ → List ℕ
drop_listener id [] = []
drop_listener id (j ∷ l) = ite (ℕ_discrete j id) (drop_listener id l) (j ∷ drop_listener id l)

joined : (P : ℕ → Type 0) (id : ℕ) (l : List ℕ) → P id → All P l → All P (join id l)
unfolding join
joined P id [] p h = (p, tt)
joined P id (j ∷ l) p h = elim (ℕ_discrete j id) [
  | yes e ↦ rw (if_pos _ e) h
  | no e ↦ rw (if_neg _ e) (h.0, joined P id l p h.1)
]

left_over : (P : ℕ → Type 0) (id : ℕ) (l : List ℕ) → All P l → All P (drop_listener id l)
unfolding drop_listener
left_over P id [] h = tt
left_over P id (j ∷ l) h = elim (ℕ_discrete j id) [
  | yes e ↦ rw (if_pos _ e) (left_over P id l h.1)
  | no e ↦ rw (if_neg _ e) (h.0, left_over P id l h.1)
]

module _ {S : Type 0} where
  unfoldable pub structured_clone_safe : Cloning S → S → S
  structured_clone_safe host value = elim host.structured [
    | some clone ↦ clone value
    | none ↦ if host.is_object value then host.through_json value else value
  ]

  unfoldable pub create_store : Cloning S → S → Store S
  create_store host initial = record {
    state = structured_clone_safe host initial;
    listeners = [];
    calls = [];
  }

  -- The loop of `set`, which the first listener that throws ends.
  unfoldable pub notify_all : (ℕ → S → Bool) → List ℕ → S → List (ℕ × S) → List (ℕ × S)
  notify_all throws [] s calls = calls
  notify_all throws (id ∷ l) s calls =
      let rest = notify_all throws l s ((id, s) ∷ calls) in
      if throws id s then (id, s) ∷ calls else rest

  unfoldable pub next_state : Next S → S → Option S
  next_state (computed f) s = f s
  next_state (given t) s = some t

  -- The state is changed before the listeners are called.
  unfoldable pub set_state : (ℕ → S → Bool) → Next S → Store S → Store S
  unfolding next_state notify_all
  set_state throws next store = elim (next_state next store.state) [
    | none ↦ store
    | some s ↦ record store { state = s; calls = notify_all throws store.listeners s store.calls }
  ]

  unfoldable pub patch : (ℕ → S → Bool) → (S → S → S) → S → Store S → Store S
  patch throws spread partial store = set_state throws (given (spread store.state partial)) store

  -- The listener is called after it was added, so that it stays if it throws.
  unfoldable pub subscribe_store : ℕ → Store S → Store S
  subscribe_store id store = record store {
    listeners = join id store.listeners;
    calls = (id, store.state) ∷ store.calls;
  }

  unfoldable pub unsubscribe : ℕ → Store S → Store S
  unsubscribe id store = record store { listeners = drop_listener id store.listeners }

  unfoldable pub store_step : (ℕ → S → Bool) → (S → S → S) → StoreEvent S → Store S → Store S
  store_step throws spread (assign next) store = set_state throws next store
  store_step throws spread (merge partial) store = patch throws spread partial store
  store_step throws spread (enter id) store = subscribe_store id store
  store_step throws spread (leave id) store = unsubscribe id store

  unfoldable pub store_run : (ℕ → S → Bool) → (S → S → S) → List (StoreEvent S) → Store S → Store S
  store_run throws spread [] store = store
  store_run throws spread (e ∷ l) store =
      store_run throws spread l (store_step throws spread e store)

  -- What the listener was last called with.
  abbrev Seen : List (ℕ × S) → S → ℕ → Type 0
  Seen calls s id = get ℕ_discrete id calls ≡ some s

  -- Each listener was last called with the state, or one that was called with it threw.
  abbrev pub Told : (ℕ → S → Bool) → Store S → Type 0
  Told throws store =
      All (λ id. get ℕ_discrete id store.calls ≡ some store.state) store.listeners
      ⊎ ((id : ℕ) × (throws id store.state ≡ true)
          × (get ℕ_discrete id store.calls ≡ some store.state))

  -- A call with the state leaves what was seen.
  called_again :
      (id q : ℕ) (s : S) (calls : List (ℕ × S)) → Seen calls s q → Seen ((id, s) ∷ calls) s q
  unfolding get
  called_again id q s calls h = ground (arith, h)

  called_now : (id : ℕ) (s : S) (calls : List (ℕ × S)) → Seen ((id, s) ∷ calls) s id
  unfolding get
  called_now id s calls = if_pos (ℕ_discrete id id) refl _ _

  notified_kept :
      (throws : ℕ → S → Bool) (q : ℕ) (l : List ℕ) (s : S) (calls : List (ℕ × S))
      → Seen calls s q
      → Seen (notify_all throws l s calls) s q
  unfolding notify_all
  notified_kept throws q [] s calls h = h
  notified_kept throws q (id ∷ l) s calls h =
      let again = called_again id q s calls h in
      if_either (λ k. Seen k s q) (throws id s) (λ _. again)
        (λ _. notified_kept throws q l s ((id, s) ∷ calls) again)

  notified :
      (throws : ℕ → S → Bool) (l : List ℕ) (s : S) (calls : List (ℕ × S))
      → All (Seen (notify_all throws l s calls) s) l
        ⊎ ((id : ℕ) × (throws id s ≡ true) × Seen (notify_all throws l s calls) s id)
  unfolding notify_all
  notified throws [] s calls = inl tt
  notified throws (id ∷ l) s calls =
      if_either (λ k. All (Seen k s) (id ∷ l) ⊎ ((j : ℕ) × (throws j s ≡ true) × Seen k s j))
        (throws id s) (λ e. inr (id, e, called_now id s calls))
        (λ _. elim (notified throws l s ((id, s) ∷ calls)) [
          | inl all ↦
              inl (notified_kept throws id l s ((id, s) ∷ calls) (called_now id s calls), all)
          | inr one ↦ inr one
        ])

  set-Told :
      (throws : ℕ → S → Bool) (next : Next S) (store : Store S)
      → Told throws store
      → Told throws (set_state throws next store)
  unfolding set_state
  set-Told throws next store v = elim (Option-cases (next_state next store.state)) [
    | inl e ↦ rw (set_state, e) v
    | inr (s, e) ↦ rw (set_state, e) (notified throws store.listeners s store.calls)
  ]

  step-Told :
      (throws : ℕ → S → Bool) (spread : S → S → S) (e : StoreEvent S) (store : Store S)
      → Told throws store
      → Told throws (store_step throws spread e store)
  unfolding store_step patch subscribe_store unsubscribe
  step-Told throws spread (assign next) store v = set-Told throws next store v
  step-Told throws spread (merge partial) store v =
      set-Told throws (given (spread store.state partial)) store v
  step-Told throws spread (enter id) store (inl v) = inl (
      joined (Seen ((id, store.state) ∷ store.calls) store.state) id store.listeners
        (called_now id store.state store.calls)
        (All-map _ _ store.listeners (λ q h. called_again id q store.state store.calls h) v))
  step-Told throws spread (enter id) store (inr (q, t, h)) =
      inr (q, t, called_again id q store.state store.calls h)
  step-Told throws spread (leave id) store (inl v) =
      inl (left_over (Seen store.calls store.state) id store.listeners v)
  step-Told throws spread (leave id) store (inr one) = inr one

  kept-Told :
      (throws : ℕ → S → Bool) (spread : S → S → S) (l : List (StoreEvent S)) (store : Store S)
      → Told throws store
      → Told throws (store_run throws spread l store)
  unfolding store_run
  kept-Told throws spread [] store v = v
  kept-Told throws spread (e ∷ l) store v =
      kept-Told throws spread l (store_step throws spread e store)
        (step-Told throws spread e store v)

  -- The listeners up to the first that throws at the state.
  abbrev pub heard : (ℕ → S → Bool) → S → List ℕ → List ℕ
  heard throws s [] = []
  heard throws s (id ∷ l) = let rest = heard throws s l in id ∷ (if throws id s then [] else rest)

  notified-heard :
      (throws : ℕ → S → Bool) (l : List ℕ) (s : S) (calls : List (ℕ × S))
      → All (Seen (notify_all throws l s calls) s) (heard throws s l)
  unfolding notify_all
  notified-heard throws [] s calls = tt
  notified-heard throws (id ∷ l) s calls =
      called (throws id s) (notified-heard throws l s ((id, s) ∷ calls))
    where
      called :
          (stops : Bool)
          → All (Seen (notify_all throws l s ((id, s) ∷ calls)) s) (heard throws s l)
          → All
              (Seen (if stops then (id, s) ∷ calls else notify_all throws l s ((id, s) ∷ calls)) s)
              (id ∷ (if stops then [] else heard throws s l))
      called true h = (called_now id s calls, tt)
      called false h = (notified_kept throws id l s ((id, s) ∷ calls) (called_now id s calls), h)

  set_state-heard :
      (throws : ℕ → S → Bool) (next : Next S) (store : Store S) (s : S)
      → next_state next store.state ≡ some s
      → ((set_state throws next store).state ≡ s)
        × All (Seen (set_state throws next store).calls s) (heard throws s store.listeners)
  unfolding set_state
  set_state-heard throws next store s e =
      rw (set_state, e) (refl, notified-heard throws store.listeners s store.calls)

  -- In every run of a store that `createStore` makes, errors of listeners and of the functions given
  -- to `set` included, each listener that is subscribed was last called with the state that the store
  -- has, unless a listener threw when it was called with that state, which ends the round of calls.
  -- After a `set` whose function does not throw, the state is the new one, and the listeners up to
  -- the first that throws at it were last called with it.
  pub store_run-Told :
      (host : Cloning S) (initial : S) (throws : ℕ → S → Bool) (spread : S → S → S)
      (l : List (StoreEvent S))
      → let store = store_run throws spread l (create_store host initial) in
        Told throws store
        × ((next : Next S) (s : S)
            → next_state next store.state ≡ some s
            → ((set_state throws next store).state ≡ s)
              × All
                  (λ id. get ℕ_discrete id (set_state throws next store).calls ≡ some s)
                  (heard throws s store.listeners))
  unfolding create_store
  store_run-Told host initial throws spread l = (
    kept-Told throws spread l (create_store host initial) (inl tt),
    λ next s e.
        set_state-heard throws next (store_run throws spread l (create_store host initial)) s e,
  )
