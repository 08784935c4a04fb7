-- ===== src/RateLimit.antt =====
-- backend/internal/middleware/ratelimit.go: a sliding window of requests for each client. The lock
-- makes each method one step, whose clock reading, in nanoseconds, is an argument.
-- `req.After(now.Add(-window))` is written `now < req + window`. The limit is a number: a negative
-- one would refuse every request, as zero does.
pub mod Window
use trabalho_radio_px.Prelude.{
  ℕ, ◌+◌, String, Bool, true, false, not, Option, none, some, List, [], ◌∷◌, ◌++◌, length, select,
  ltb, leb, if◌then◌else◌, ◌==◌,
}
use trabalho_radio_px.Prelude.Map.{Map, put, entry}
use trabalho_radio_px.Http.{Request, Handler, fail}

pub record RateLimiter : Type 0 where
  pub requests : Map (List ℕ)
  pub limit : ℕ
  pub window : ℕ

unfoldable pub new_rate_limiter : ℕ → ℕ → RateLimiter
new_rate_limiter limit window = record { requests = []; limit = limit; window = window }

-- The request is in the window that ends now.
abbrev pub valid : ℕ → ℕ → ℕ → Bool
valid window now req = ltb now (req + window)

unfoldable pub allow : ℕ → RateLimiter → String → RateLimiter × Bool
allow now rl client =
    let valid_requests = select (valid rl.window now) (entry rl.requests client) in
    if leb rl.limit (length valid_requests)
    then (rl, false)
    else (record rl { requests = put rl.requests client (valid_requests ++ now ∷ []) }, true)

-- The loop of Cleanup: an entry with no request in the window is deleted.
unfoldable pub sweep : ℕ → ℕ → Map (List ℕ) → Map (List ℕ)
sweep window now [] = []
sweep window now ((client, requests) ∷ rest) =
    let swept = sweep window now rest in
    elim (select (valid window now) requests) [ [] ↦ swept | t ∷ ts ↦ (client, t ∷ ts) ∷ swept ]

unfoldable pub cleanup : ℕ → RateLimiter → RateLimiter
unfolding sweep
cleanup now rl = record rl { requests = sweep rl.window now rl.requests }

pub data Call : Type 0 where
  request : String → Call
  clean : Call

unfoldable pub step : RateLimiter → ℕ × Call → RateLimiter
step rl (now, request client) = (allow now rl client).0
step rl (now, clean) = cleanup now rl

-- The call lets a request of this client through.
unfoldable pub grants : String → RateLimiter → ℕ × Call → Bool
grants client rl (now, request other) = if other == client then (allow now rl other).1 else false
grants client rl (now, clean) = false

-- The times at which a history of calls lets requests of this client through.
unfoldable pub granted : String → RateLimiter → List (ℕ × Call) → List ℕ
granted client rl [] = []
granted client rl ((now, c) ∷ cs) =
    let rest = granted client (step rl (now, c)) cs in
    if grants client rl (now, c) then now ∷ rest else rest

-- getClientID; `split_host_port` is the host that net.SplitHostPort finds, `none` for an error.
unfoldable pub get_client_id : (String → Option String) → Request → String
get_client_id split_host_port r = elim (split_host_port r.remote_addr) [
  | none ↦ r.remote_addr
  | some host ↦ host
]

unfoldable pub rate_limit_middleware :
    {State Body : Type 0}
    → (String → Option String)
    → ℕ
    → Handler State Body
    → Handler (RateLimiter × State) Body
unfolding allow get_client_id
rate_limit_middleware split_host_port now next r (rl, s) =
    let (rl', allowed) = allow now rl (get_client_id split_host_port r) in
    if not allowed
    then ((rl', s), fail 429 "Muitas tentativas. Tente novamente mais tarde.")
    else (let (s', response) = next r s in ((rl', s'), response))
