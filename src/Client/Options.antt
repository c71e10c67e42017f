-- ===== src/Client/Options.antt =====
-- The options of `connectChat` and their checks: `positive` and the start of the closure
-- (priv/ui/js/client.js).
use wiregrid.Base.{false, ℕ, String, Bool, ◌&&◌, some, [], leb, if◌then◌else◌}
use wiregrid.Client.Types.{range_error, Result, ok, err, Limits, Client, waiting}

-- A value given for an option: null or undefined, a natural number, or anything else.
pub data Setting : Type 0 where
  absent : Setting
  number : ℕ → Setting
  other : Setting

pub record Settings : Type 0 where
  pub max_pending : Setting
  pub request_timeout_ms : Setting
  pub connect_timeout_ms : Setting
  pub max_buffered_bytes : Setting
  pub has_debug : Bool

infixl 5 ◌>>=◌
abbrev pub ◌>>=◌ : {A B : Type 0} → Result A → (A → Result B) → Result B
err error >>= rest = err error
ok a >>= rest = rest a

abbrev pub max_safe_integer : ℕ
max_safe_integer = 9007199254740991

-- The test on a number that was given or is the fallback.
unfoldable pub checked : String → ℕ → Result ℕ
checked name value =
    if leb value max_safe_integer && leb 1 value && leb value 2147483647
    then ok value
    else err (range_error name)

unfoldable pub positive : String → Setting → ℕ → Result ℕ
unfolding checked
positive name absent fallback = checked name fallback
positive name (number value) fallback = checked name value
positive name other fallback = err (range_error name)

unfoldable pub read_limits : Settings → Result Limits
read_limits s = do
  max_pending ← positive "maxPending" s.max_pending 256
  request_timeout ← positive "requestTimeoutMs" s.request_timeout_ms 10000
  connect_timeout ← positive "connectTimeoutMs" s.connect_timeout_ms 10000
  max_buffered ← positive "maxBufferedBytes" s.max_buffered_bytes 1048576
  ok (record {
    max_pending = max_pending;
    request_timeout = request_timeout;
    connect_timeout = connect_timeout;
    max_buffered_bytes = max_buffered;
  })

-- The closure as it is when `connectChat` returns: a new socket, and the connect timer running.
unfoldable pub start : {S : Type 0} → Bool → S → Limits → Client S
start has_debug socket limits = record {
  limits = limits;
  has_debug = has_debug;
  socket = socket;
  pending = [];
  queued_bytes = 0;
  seq = 0;
  closed = false;
  initialized = false;
  ready = waiting;
  connect_timer = some limits.connect_timeout;
  timers = [];
  tickets = 0;
  settled = [];
  log = [];
}

unfoldable pub connect : {S : Type 0} → Settings → S → Result (Client S)
connect s socket = do limits ← read_limits s; ok (start s.has_debug socket limits)
