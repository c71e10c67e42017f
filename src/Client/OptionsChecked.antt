-- ===== src/Client/OptionsChecked.antt =====
-- What is known of the options that `connectChat` accepts (priv/ui/js/client.js).
use wiregrid.Base.{ℕ, String, ◌≤◌, ◌≡◌, refl, arith}
use wiregrid.Client.Types.{Result, ok, err, Limits}
use wiregrid.Client.Options.{Setting, absent, number, other, Settings, ◌>>=◌, positive, read_limits}

-- A chain that succeeds has a first step that does.
pub ok_of_bind :
    {A B : Type 0} (rest : A → Result B) (first : Result A) {r : B}
    → (first >>= rest) ≡ ok r
    → (a : A) × (rest a ≡ ok r) × (first ≡ ok a)
ok_of_bind rest (err error) e = cc
ok_of_bind rest (ok a) e = (a, e, refl)

pub ok_inj {ℓ} : {A : Type ℓ} {a b : A} → ok a ≡ ok b → a ≡ b
ok_inj h = cc

-- The range of a delay that a browser timer keeps.
abbrev pub IsPositive : ℕ → Type 0
IsPositive value = (1 ≤ value) × (value ≤ 2147483647)

-- An option that passes its check is positive and below 2^31.
pub positive-IsPositive :
    (name : String) (s : Setting) (fallback : ℕ) {value : ℕ}
    → positive name s fallback ≡ ok value
    → IsPositive value
unfolding positive
positive-IsPositive name absent fallback h = ground arith
positive-IsPositive name (number n) fallback h = ground arith
positive-IsPositive name other fallback h = absurd (ground arith)

pub read_limits-range :
    (s : Settings) {limits : Limits}
    → read_limits s ≡ ok limits
    → IsPositive limits.max_pending
      × IsPositive limits.request_timeout
      × IsPositive limits.connect_timeout
      × IsPositive limits.max_buffered_bytes
unfolding read_limits
read_limits-range s h =
    let (a, ha, ea) = ok_of_bind _ (positive "maxPending" s.max_pending 256) h in
    let (b, hb, eb) = ok_of_bind _ (positive "requestTimeoutMs" s.request_timeout_ms 10000) ha in
    let (c, hc, ec) = ok_of_bind _ (positive "connectTimeoutMs" s.connect_timeout_ms 10000) hb in
    let (d, hd, ed) = ok_of_bind _ (positive "maxBufferedBytes" s.max_buffered_bytes 1048576) hc in
    rw (← ok_inj hd) (
      positive-IsPositive _ _ _ ea,
      positive-IsPositive _ _ _ eb,
      positive-IsPositive _ _ _ ec,
      positive-IsPositive _ _ _ ed,
    )
