-- ===== src/RateLimit/Window.antt =====
-- backend/internal/middleware/ratelimit.go: no window holds more granted requests than the limit.
use mathlib.Core.List.{append_assoc, append-nil}
use mathlib.Core.Path.{subst₂}
use native.Mathlib.Nat.{le_trans}
use trabalho_radio_px.Prelude.{
  ℕ, ◌≤◌, ◌<◌, String, ◌≡◌, refl, ap, sym, ◌∙◌, Bool, false, ◌&&◌, Bool-cases, inl, inr, none, List,
  [], ◌∷◌, ◌++◌, length, length-append, length-select-le, leb→le, leb-gt, select, select-append,
  All, All-append, leb, if◌then◌else◌, ◌==◌, eq_iff, eq_refl, arith,
}
use trabalho_radio_px.Prelude.Map.{Map, IsMap, find, put, entry, entry-put, put-IsMap}
use trabalho_radio_px.RateLimit.{
  RateLimiter, new_rate_limiter, valid, allow, sweep, cleanup, Call, request, clean, step, grants,
  granted,
}

-- The times are in order, from the first one on.
abbrev pub IsOrdered : ℕ → List (ℕ × Call) → Type 0
IsOrdered now [] = Unit
IsOrdered now ((t, c) ∷ cs) = (now ≤ t) × IsOrdered t cs

abbrev pub in_window : ℕ → ℕ → ℕ → Bool
in_window window t g = leb g t && valid window t g

-- What the limiter keeps for the client, against all that it has granted so far.
record Agrees (rl : RateLimiter) (client : String) (now : ℕ) (log : List ℕ) : Type 0 where
  is_map : IsMap rl.requests
  old : All (λ g. g ≤ now) log
  agree :
      (t : ℕ)
      → now ≤ t
      → select (valid rl.window t) log ≡ select (valid rl.window t) (entry rl.requests client)
  bound : (t : ℕ) → length (select (in_window rl.window t) log) ≤ rl.limit

-- What is in a later window is in the earlier one.
select-select :
    (w now t : ℕ) (xs : List ℕ)
    → now ≤ t
    → select (valid w t) (select (valid w now) xs) ≡ select (valid w t) xs
select-select w now t [] l = refl
select-select w now t (x ∷ xs) l = ground (arith, select-select w now t xs)

select-in_window :
    (w now t : ℕ) (log : List ℕ)
    → now ≤ t
    → All (λ g. g ≤ now) log
    → select (in_window w t) log ≡ select (valid w t) log
select-in_window w now t [] l h = refl
select-in_window w now t (g ∷ log) l h = ground (arith, select-in_window w now t log l h.1)

find-sweep :
    (w now : ℕ) (m : Map (List ℕ)) (k : String) → find m k ≡ none → find (sweep w now m) k ≡ none
unfolding find sweep
find-sweep w now [] k h = refl
find-sweep w now ((c, rs) ∷ m) k h = ground (arith, find-sweep w now m k)

sweep-IsMap : (w now : ℕ) (m : Map (List ℕ)) → IsMap m → IsMap (sweep w now m)
unfolding sweep
sweep-IsMap w now [] h = tt
sweep-IsMap w now ((c, rs) ∷ m) h = ground (arith, find-sweep w now m c, sweep-IsMap w now m)

entry-sweep :
    (w now : ℕ) (m : Map (List ℕ)) (k : String)
    → IsMap m
    → entry (sweep w now m) k ≡ select (valid w now) (entry m k)
unfolding entry find sweep
entry-sweep w now [] k h = refl
entry-sweep w now ((c, rs) ∷ m) k h =
    ground (arith, eq_iff c k, find-sweep w now m k, entry-sweep w now m k)

All-le : (now t : ℕ) (log : List ℕ) → now ≤ t → All (λ g. g ≤ now) log → All (λ g. g ≤ t) log
All-le now t [] l h = tt
All-le now t (g ∷ log) l h = (omega arith, All-le now t log l h.1)

-- A step that grants the client nothing keeps the agreement, if later windows see the same entry.
keep-Agrees :
    (rl : RateLimiter) (m : Map (List ℕ)) (client : String) (now t : ℕ) (log : List ℕ)
    → now ≤ t
    → IsMap m
    → ((u : ℕ)
        → t ≤ u
        → select (valid rl.window u) (entry m client)
          ≡ select (valid rl.window u) (entry rl.requests client))
    → Agrees rl client now log
    → Agrees (record rl { requests = m }) client t log
keep-Agrees rl m client now t log l i s v = record {
  is_map = i;
  old = All-le now t log l v.old;
  agree = λ u lu. v.agree u (omega arith) ∙ sym (s u lu);
  bound = v.bound;
}

-- The state after a request of a client that is granted.
abbrev recorded : ℕ → RateLimiter → String → RateLimiter
recorded t rl client = record rl {
  requests =
      put rl.requests client (select (valid rl.window t) (entry rl.requests client) ++ t ∷ []);
}

recorded-agree :
    (rl : RateLimiter) (client : String) (now t : ℕ) (log : List ℕ)
    → now ≤ t
    → Agrees rl client now log
    → (u : ℕ) → t ≤ u
    → select (valid rl.window u) (log ++ t ∷ [])
      ≡ select (valid rl.window u) (entry (recorded t rl client).requests client)
recorded-agree rl client now t log l v u lu = rw (
  entry-put,
  eq_refl client,
  select-append,
  select-append,
  select-select rl.window t u (entry rl.requests client) lu,
  v.agree u (omega arith),
)

recorded-bound :
    (rl : RateLimiter) (client : String) (now t : ℕ) (log : List ℕ)
    → now ≤ t
    → length (select (valid rl.window t) (entry rl.requests client)) < rl.limit
    → Agrees rl client now log
    → (u : ℕ) → length (select (in_window rl.window u) (log ++ t ∷ [])) ≤ rl.limit
recorded-bound rl client now t log l few v u = elim (Bool-cases (leb t u)) [
  | inl reached ↦
      rw
        (select-in_window rl.window t u (log ++ t ∷ []) (leb→le t u reached) all_old, select-append)
        (omega (
          arith,
          length-append (select (valid rl.window u) log) (select (valid rl.window u) (t ∷ [])),
          length-select-le (valid rl.window u) (t ∷ []),
          ap length (v.agree u (le_trans l (leb→le t u reached))),
          ap length (select-select rl.window t u held (leb→le t u reached)),
          length-select-le (valid rl.window u) (select (valid rl.window t) held),
        ))
  | inr before ↦ rw (select-append, before) (rw append-nil (v.bound u))
]
  where
    held : List ℕ
    held = entry rl.requests client

    all_old : All (λ g. g ≤ t) (log ++ t ∷ [])
    all_old = All-append _ log (t ∷ []) (All-le now t log l v.old) (omega arith)

grant-Agrees :
    (rl : RateLimiter) (client : String) (now t : ℕ) (log : List ℕ)
    → now ≤ t
    → length (select (valid rl.window t) (entry rl.requests client)) < rl.limit
    → Agrees rl client now log
    → Agrees (recorded t rl client) client t (log ++ t ∷ [])
grant-Agrees rl client now t log l few v = record {
  is_map = put-IsMap rl.requests client _ v.is_map;
  old = All-append _ log (t ∷ []) (All-le now t log l v.old) (omega arith);
  agree = recorded-agree rl client now t log l v;
  bound = recorded-bound rl client now t log l few v;
}

request-Agrees :
    (rl : RateLimiter) (client other : String) (now t : ℕ) (log : List ℕ)
    → now ≤ t
    → (other == client) ≡ false
    → Agrees rl client now log
    → Agrees (allow t rl other).0 client t log
unfolding allow
request-Agrees rl client other now t log l differ v = elim (Bool-cases full) [
  | inl e ↦ rw e (keep-Agrees rl rl.requests client now t log l v.is_map (λ u _. refl) v)
  | inr e ↦ rw e (
      keep-Agrees rl _ client now t log l (put-IsMap rl.requests other _ v.is_map)
        (λ u _. rw (entry-put, differ)) v)
]
  where
    full : Bool
    full = leb rl.limit (length (select (valid rl.window t) (entry rl.requests other)))

self-Agrees :
    (rl : RateLimiter) (client : String) (now t : ℕ) (log : List ℕ)
    → now ≤ t
    → Agrees rl client now log
    → Agrees (allow t rl client).0 client t (log ++ (if (allow t rl client).1 then t ∷ [] else []))
unfolding allow
self-Agrees rl client now t log l v = elim (Bool-cases full) [
  | inl e ↦
      rw (e, append-nil) (keep-Agrees rl rl.requests client now t log l v.is_map (λ u _. refl) v)
  | inr e ↦ rw e (grant-Agrees rl client now t log l (leb-gt _ _ e) v)
]
  where
    full : Bool
    full = leb rl.limit (length (select (valid rl.window t) (entry rl.requests client)))

-- The log after a step, with the grant that the step makes.
step-Agrees :
    (rl : RateLimiter) (client : String) (now t : ℕ) (c : Call) (log : List ℕ)
    → now ≤ t
    → Agrees rl client now log
    → Agrees (step rl (t, c)) client t (log ++ (if grants client rl (t, c) then t ∷ [] else []))
unfolding step grants cleanup
step-Agrees rl client now t clean log l v = rw append-nil (
    keep-Agrees rl _ client now t log l (sweep-IsMap rl.window t rl.requests v.is_map)
      (λ u lu.
        rw (entry-sweep rl.window t rl.requests client v.is_map)
          (select-select rl.window t u (entry rl.requests client) lu))
      v)
step-Agrees rl client now t (request other) log l v = elim (Bool-cases (other == client)) [
  | inr differ ↦ rw (differ, append-nil) (request-Agrees rl client other now t log l differ v)
  | inl same ↦ rw (same, (eq_iff other client).0 same) (self-Agrees rl client now t log l v)
]

step-window : (rl : RateLimiter) (c : ℕ × Call) → (step rl c).window ≡ rl.window
unfolding step allow cleanup
step-window rl (t, clean) = refl
step-window rl (t, request other) = ground arith

step-limit : (rl : RateLimiter) (c : ℕ × Call) → (step rl c).limit ≡ rl.limit
unfolding step allow cleanup
step-limit rl (t, clean) = refl
step-limit rl (t, request other) = ground arith

before-step :
    (rl : RateLimiter) (c : ℕ × Call) (t : ℕ) (log : List ℕ)
    → length (select (in_window (step rl c).window t) log) ≤ (step rl c).limit
    → length (select (in_window rl.window t) log) ≤ rl.limit
before-step rl c t log =
    subst₂ (λ w l. length (select (in_window w t) log) ≤ l) (step-window rl c) (step-limit rl c)

history-Agrees :
    (cs : List (ℕ × Call)) (rl : RateLimiter) (client : String) (now : ℕ) (log : List ℕ)
    → IsOrdered now cs
    → Agrees rl client now log
    → (t : ℕ) → length (select (in_window rl.window t) (log ++ granted client rl cs)) ≤ rl.limit
unfolding granted
history-Agrees [] rl client now log o v t = rw append-nil (v.bound t)
history-Agrees ((s, c) ∷ cs) rl client now log o v t = elim (Bool-cases (grants client rl (s, c))) [
  | inl e ↦ rw e (
      rw append_assoc at (
        before-step rl (s, c) t ((log ++ s ∷ []) ++ granted client (step rl (s, c)) cs)
          (history-Agrees cs (step rl (s, c)) client s (log ++ s ∷ []) o.1 (rw e at stepped) t)))
  | inr e ↦ rw e (
      before-step rl (s, c) t _
        (history-Agrees cs (step rl (s, c)) client s log o.1 (rw (e, append-nil) at stepped) t))
]
  where
    stepped :
        Agrees (step rl (s, c)) client s (log ++ (if grants client rl (s, c) then s ∷ [] else []))
    stepped = step-Agrees rl client now s c log o.0 v

-- Whatever calls come in the order of their times, a client is let through at most `limit` times
-- in any window: of its granted requests, at most `limit` are no later than a time and less than
-- the window's length before it.
pub granted-in_window :
    (limit window : ℕ) (client : String) (cs : List (ℕ × Call)) (t : ℕ)
    → IsOrdered 0 cs
    → length (select (in_window window t) (granted client (new_rate_limiter limit window) cs))
      ≤ limit
unfolding new_rate_limiter entry find
granted-in_window limit window client cs t o =
    history-Agrees cs (new_rate_limiter limit window) client 0 [] o start t
  where
    start : Agrees (new_rate_limiter limit window) client 0 []
    start = record { is_map = tt; old = tt; agree = λ u _. refl; bound = λ u. omega arith }
