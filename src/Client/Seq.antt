-- ===== src/Client/Seq.antt =====
-- The request numbers of `call` (priv/ui/js/client.js).
use wiregrid.Base.{
  ℕ, suc, zero, ◌+◌, Option, none, some, leb, if◌then◌else◌, ℕ_discrete, true, false,
}
use wiregrid.Base.JsMap.{JsMap, has}

abbrev pub max_seq : ℕ
max_seq = 4294967295

unfoldable pub next_seq : ℕ → ℕ
next_seq seq = if leb max_seq seq then 1 else seq + 1

-- `do { seq = ... } while (pending.has(seq))`; `none` means that the fuel ran out.
unfoldable pub fresh_seq : {V : Type 0} → ℕ → ℕ → JsMap ℕ V → Option ℕ
fresh_seq zero seq pending = none
fresh_seq (suc fuel) seq pending = elim (has ℕ_discrete (next_seq seq) pending) [
  | true ↦ fresh_seq fuel (next_seq seq) pending
  | false ↦ some (next_seq seq)
]
