-- ===== src/Base/JsMap.antt =====
-- A JavaScript Map: its entries in insertion order, the keys compared by value.
use Prim.Native.Nat.{ℕ, ◌+◌}
use mathlib.Core.Path.{◌≡◌, refl, sym, subst}
use mathlib.Core.Logic.{◌≢◌, ite, if_pos, if_neg}
use mathlib.Core.Bool.{Bool}
use mathlib.Core.List.{List, [], ◌∷◌, ◌++◌, map}
use mathlib.Core.Option.{Option, none, some}
use native.Mathlib.Omega.{arith}
use wiregrid.Base.Lists.{All, total}
use wiregrid.Base.Tests.{is_some}

abbrev pub JsMap {ℓ} : Type ℓ → Type ℓ → Type ℓ
JsMap K V = List (K × V)

module _ {ℓ} {K V : Type ℓ} where
  abbrev pub keys : JsMap K V → List K
  keys = map (λ e. e.0)

  abbrev pub values : JsMap K V → List V
  values = map (λ e. e.1)

  -- No key stands twice.
  abbrev pub Distinct : JsMap K V → Type ℓ
  Distinct [] = Unit
  Distinct (e ∷ l) = All (λ f. f.0 ≢ e.0) l × Distinct l

module _ {ℓ} {K V : Type ℓ} (dec : Discrete K) where
  unfoldable pub get : K → JsMap K V → Option V
  get k [] = none
  get k ((j, v) ∷ l) = ite (dec j k) (some v) (get k l)

  abbrev pub has : K → JsMap K V → Bool
  has k l = is_some (get k l)

  unfoldable pub delete : K → JsMap K V → JsMap K V
  delete k [] = []
  delete k ((j, v) ∷ l) = ite (dec j k) (delete k l) ((j, v) ∷ delete k l)

  -- A key that is there keeps its place; a new one goes to the end.
  unfoldable pub set : K → V → JsMap K V → JsMap K V
  set k v [] = (k, v) ∷ []
  set k v ((j, w) ∷ l) = ite (dec j k) ((j, v) ∷ l) ((j, w) ∷ set k v l)

  -- What a reader sees after each operation.
  pub get-delete_self : (k : K) (l : JsMap K V) → get k (delete k l) ≡ none
  unfolding get delete
  get-delete_self k [] = refl
  get-delete_self k ((j, v) ∷ l) = ground (arith, get-delete_self k l)

  pub get-delete_ne : (k q : K) (l : JsMap K V) → q ≢ k → get q (delete k l) ≡ get q l
  unfolding get delete
  get-delete_ne k q [] h = refl
  get-delete_ne k q ((j, v) ∷ l) h = ground (arith, get-delete_ne k q l)

  pub get-set_self : (k : K) (v : V) (l : JsMap K V) → get k (set k v l) ≡ some v
  unfolding get set
  get-set_self k v [] = ground arith
  get-set_self k v ((j, w) ∷ l) = ground (arith, get-set_self k v l)

  pub get-set_ne : (k q : K) (v : V) (l : JsMap K V) → q ≢ k → get q (set k v l) ≡ get q l
  unfolding get set
  get-set_ne k q v [] h = ground arith
  get-set_ne k q v ((j, w) ∷ l) h = ground (arith, get-set_ne k q v l)

  pub set_new : (k : K) (v : V) (l : JsMap K V) → get k l ≡ none → set k v l ≡ l ++ (k, v) ∷ []
  unfolding get set
  set_new k v [] h = refl
  set_new k v ((j, w) ∷ l) h = ground (arith, set_new k v l)

  -- An absent key.
  pub Avoids_of_none : (k : K) (l : JsMap K V) → get k l ≡ none → All (λ e. e.0 ≢ k) l
  unfolding get
  Avoids_of_none k [] h = tt
  Avoids_of_none k ((j, v) ∷ l) h = elim (dec j k) [
    | yes p ↦ absurd (ground arith)
    | no p ↦ (p, Avoids_of_none k l (ground arith))
  ]

  pub none_of_Avoids : (k : K) (l : JsMap K V) → All (λ e. e.0 ≢ k) l → get k l ≡ none
  unfolding get
  none_of_Avoids k [] h = refl
  none_of_Avoids k ((j, v) ∷ l) h = ground (arith, none_of_Avoids k l h.1)

  pub delete_absent : (k : K) (l : JsMap K V) → All (λ e. e.0 ≢ k) l → delete k l ≡ l
  unfolding delete
  delete_absent k [] h = refl
  delete_absent k ((j, v) ∷ l) h = ground (arith, delete_absent k l h.1)

  -- Predicates on all entries.
  pub All-delete {κ} : (P : K × V → Type κ) (k : K) (l : JsMap K V) → All P l → All P (delete k l)
  unfolding delete
  All-delete P k [] h = tt
  All-delete P k ((j, v) ∷ l) h = elim (dec j k) [
    | yes p ↦ rw (if_pos _ p) (All-delete P k l h.1)
    | no p ↦ rw (if_neg _ p) (h.0, All-delete P k l h.1)
  ]

  pub delete-Distinct : (k : K) (l : JsMap K V) → Distinct l → Distinct (delete k l)
  unfolding delete
  delete-Distinct k [] h = tt
  delete-Distinct k ((j, v) ∷ l) h = elim (dec j k) [
    | yes p ↦ rw (if_pos _ p) (delete-Distinct k l h.1)
    | no p ↦ rw (if_neg _ p) (All-delete (λ e. e.0 ≢ j) k l h.0, delete-Distinct k l h.1)
  ]

  pub All-set {κ} :
      (P : K × V → Type κ) (k : K) (v : V) (l : JsMap K V) → P (k, v) → All P l → All P (set k v l)
  unfolding set
  All-set P k v [] p h = (p, tt)
  All-set P k v ((j, w) ∷ l) p h = elim (dec j k) [
    | yes e ↦ rw (if_pos _ e, e) (p, h.1)
    | no e ↦ rw (if_neg _ e) (h.0, All-set P k v l p h.1)
  ]

  pub All-get {κ} :
      (P : K × V → Type κ) (k : K) {v : V} (l : JsMap K V) → All P l → get k l ≡ some v → P (k, v)
  unfolding get
  All-get P k [] h e = absurd (ground arith)
  All-get P k {v} ((j, w) ∷ l) h e = elim (dec j k) [
    | yes p ↦ subst P (ground arith) h.0
    | no p ↦ All-get P k l h.1 (ground arith)
  ]

  -- A measure summed over the entries loses that of the deleted one.
  pub total-delete :
      (f : K × V → ℕ) (k : K) {v : V} (l : JsMap K V)
      → Distinct l
      → get k l ≡ some v
      → total f (delete k l) + f (k, v) ≡ total f l
  unfolding get delete
  total-delete f k [] d e = absurd (ground arith)
  total-delete f k {v} ((j, w) ∷ l) d e = elim (dec j k) [
    | yes p ↦
        let gone : delete k l ≡ l = delete_absent k l (rw (← p) d.0) in
        let same : f (j, w) ≡ f (k, v) = ground arith in rw (if_pos _ p, gone) (omega arith)
    | no p ↦ rw (if_neg _ p) (omega (arith, total-delete f k {v = v} l d.1 (ground arith)))
  ]

  pub set-Distinct : (k : K) (v : V) (l : JsMap K V) → Distinct l → Distinct (set k v l)
  unfolding set
  set-Distinct k v [] h = (tt, tt)
  set-Distinct k v ((j, w) ∷ l) h = elim (dec j k) [
    | yes p ↦ rw (if_pos _ p) h
    | no p ↦
        rw (if_neg _ p) (All-set (λ e. e.0 ≢ j) k v l (λ q. p (sym q)) h.0, set-Distinct k v l h.1)
  ]

  -- What is read after a deletion was there before it.
  pub get_of_get-delete :
      (k q : K) {v : V} (l : JsMap K V) → get q (delete k l) ≡ some v → get q l ≡ some v
  get_of_get-delete k q {v} l h = elim (dec q k) [
    | yes p ↦ absurd (ground (arith, get-delete_self k l))
    | no p ↦ ground (arith, get-delete_ne k q l p)
  ]
