-- ===== src/Client/Fresh.antt =====
-- The search for a request number of `call` (priv/ui/js/client.js) ends.
use wiregrid.Base.{
  ℕ, zero, suc, ◌+◌, ◌-◌, ◌≤◌, ◌<◌, ◌≡◌, ◌≢◌, ◌⊎◌, inl, inr, true, false, Option, some, [], ◌∷◌,
  arith, leb, if◌then◌else◌, ℕ_discrete, length, Bool-cases, ap, ◌∙◌,
}
use wiregrid.Base.JsMap.{JsMap, has, get, delete, get-delete_ne}
use wiregrid.Client.Seq.{max_seq, next_seq, fresh_seq}

-- The number that follows `seq` in `k` steps, for `k` up to `max_seq`.
unfoldable pub seq_after : ℕ → ℕ → ℕ
seq_after seq k = if leb (seq + k) max_seq then seq + k else seq + k - max_seq

seq_after_one : (seq : ℕ) → seq ≤ max_seq → next_seq seq ≡ seq_after seq 1
unfolding next_seq seq_after
seq_after_one seq h = ground arith

next_seq_bound : (seq : ℕ) → seq ≤ max_seq → next_seq seq ≤ max_seq
unfolding next_seq
next_seq_bound seq h = ground arith

seq_after_next :
    (seq k : ℕ) → seq ≤ max_seq → k < max_seq → seq_after (next_seq seq) k ≡ seq_after seq (suc k)
unfolding next_seq seq_after
seq_after_next seq k h b = ground arith

seq_after_ne :
    (seq i k : ℕ)
    → seq ≤ max_seq
    → i < k
    → k < max_seq
    → seq_after seq (suc i) ≢ seq_after seq (suc k)
unfolding seq_after
seq_after_ne seq i k h lt b = ground arith

pub seq_after_range :
    (seq i : ℕ)
    → seq ≤ max_seq
    → i < max_seq
    → (1 ≤ seq_after seq (suc i)) × (seq_after seq (suc i) ≤ max_seq)
unfolding seq_after
seq_after_range seq i h b = ground arith

module _ {V : Type 0} where
  length-delete : (k : ℕ) (l : JsMap ℕ V) → length (delete ℕ_discrete k l) ≤ length l
  unfolding delete
  length-delete k [] = omega arith
  length-delete k ((j, v) ∷ l) = ground (arith, length-delete k l)

  length-delete-has :
      (k : ℕ) (l : JsMap ℕ V)
      → has ℕ_discrete k l ≡ true
      → length (delete ℕ_discrete k l) < length l
  unfolding get delete
  length-delete-has k [] h = absurd (ground arith)
  length-delete-has k ((j, v) ∷ l) h = ground (arith, length-delete k l, length-delete-has k l)

  -- The `n` numbers after `seq` are all taken.
  abbrev pub Taken : ℕ → ℕ → JsMap ℕ V → Type 0
  Taken seq n l = (i : ℕ) → i < n → has ℕ_discrete (seq_after seq (suc i)) l ≡ true

  -- Distinct numbers, so there are as many entries.
  Taken-le :
      (n seq : ℕ) (l : JsMap ℕ V) → seq ≤ max_seq → n ≤ max_seq → Taken seq n l → n ≤ length l
  Taken-le zero seq l h b t = omega arith
  Taken-le (suc n) seq l h b t =
      let last : ℕ = seq_after seq (suc n) in
      let still : Taken seq n (delete ℕ_discrete last l) = λ i lt.
        rw (get-delete_ne ℕ_discrete last _ l (seq_after_ne seq i n h lt b)) (t i (omega arith)) in
      omega (
        arith,
        Taken-le n seq (delete ℕ_discrete last l) h (omega arith) still,
        length-delete-has last l (t n (omega arith)),
      )

  Taken-cons :
      (seq n : ℕ) (l : JsMap ℕ V)
      → seq ≤ max_seq
      → n < max_seq
      → has ℕ_discrete (next_seq seq) l ≡ true
      → Taken (next_seq seq) n l
      → Taken seq (suc n) l
  Taken-cons seq n l h b first t zero lt = rw (← seq_after_one seq h) first
  Taken-cons seq n l h b first t (suc i) lt =
      rw (← seq_after_next seq (suc i) h (omega arith)) (t i (omega arith))

  -- The first number that is free, in the order in which they come.
  abbrev pub Found : ℕ → ℕ → JsMap ℕ V → Option ℕ → Type 0
  Found seq n l r =
      (i : ℕ) × (i < n)
      × (r ≡ some (seq_after seq (suc i)))
      × (has ℕ_discrete (seq_after seq (suc i)) l ≡ false)
      × Taken seq i l

  search_cases :
      (n seq : ℕ) (l : JsMap ℕ V)
      → seq ≤ max_seq
      → n ≤ max_seq
      → Taken seq n l ⊎ Found seq n l (fresh_seq n seq l)
  unfolding fresh_seq
  search_cases zero seq l h b = inl (λ i lt. absurd (omega arith))
  search_cases (suc n) seq l h b = elim (Bool-cases (has ℕ_discrete (next_seq seq) l)) [
    | inl busy ↦ elim (search_cases n (next_seq seq) l (next_seq_bound seq h) (omega arith)) [
      | inl t ↦ inl (Taken-cons seq n l h b busy t)
      | inr (i, lt, e, free, t) ↦
          let same : seq_after (next_seq seq) (suc i) ≡ seq_after seq (suc (suc i)) =
            seq_after_next seq (suc i) h (omega arith) in
          inr (
            suc i,
            omega arith,
            rw (busy, fresh_seq) (e ∙ ap some same),
            rw (← same) free,
            Taken-cons seq i l h (omega arith) busy t,
          )
    ]
    | inr free ↦
        let same = seq_after_one seq h in
        inr (
          0,
          omega arith,
          rw (free, fresh_seq) (ap some same),
          rw (← same) free,
          λ i lt. absurd (omega arith),
        )
  ]

  -- While fewer than 2^32 - 1 requests are pending the search ends within one round more than there
  -- are entries, at the first number in order that no entry has.
  pub fresh_seq-Found :
      (seq : ℕ) (l : JsMap ℕ V)
      → seq ≤ max_seq
      → length l < max_seq
      → Found seq (suc (length l)) l (fresh_seq (suc (length l)) seq l)
  fresh_seq-Found seq l h b = elim (search_cases (suc (length l)) seq l h b) [
    | inl t ↦ absurd (omega (arith, Taken-le (suc (length l)) seq l h b t))
    | inr f ↦ f
  ]
