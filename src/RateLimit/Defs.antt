-- ===== src/RateLimit/Defs.antt =====
-- `SlidingWindowLimiter` of mahjong/server/ratelimit.py. Times are counted in ticks, and the clock
-- is an argument of each call; `t <= now - window` is written `t + window <= now`, since a time may
-- come before the first window has passed. The dict is an association list.
use mahjong_server_bot_zoo.Prelude.{
  ℕ, ◌+◌, Bool, true, false, Option, none, some, List, [], ◌∷◌, ◌++◌, Eq, ◌==◌, leb, ltb,
  if◌then◌else◌, length,
}

pub record Limiter (K : Type 0) : Type 0 where
  pub max_events : ℕ
  pub window : ℕ
  pub events : List (K × List ℕ)

-- `while dq and dq[0] <= cutoff: dq.popleft()`
unfoldable pub prune : ℕ → ℕ → List ℕ → List ℕ
prune window now [] = []
prune window now (t ∷ dq) =
    let rest = prune window now dq in if leb (t + window) now then rest else t ∷ dq

-- A new deque for a new key.
abbrev pub deque_of : Option (List ℕ) → List ℕ
deque_of none = []
deque_of (some dq) = dq

module _ {K : Type 0} ⦃e : Eq K⦄ where
  -- `self._events.get(key)`
  unfoldable pub get : K → List (K × List ℕ) → Option (List ℕ)
  get key [] = none
  get key ((k, dq) ∷ rest) = let later = get key rest in if k == key then some dq else later

  -- The deque of a key is changed in place, or a new key is put last.
  unfoldable pub put : K → List ℕ → List (K × List ℕ) → List (K × List ℕ)
  put key dq [] = (key, dq) ∷ []
  put key dq ((k, old) ∷ rest) =
      let later = put key dq rest in if k == key then (k, dq) ∷ rest else (k, old) ∷ later

  abbrev pub with_events : Limiter K → List (K × List ℕ) → Limiter K
  with_events l events = record l { events = events }

  -- The answer, and the limiter with the deque pruned.
  abbrev pub would_allow_at : Option (List ℕ) → Limiter K → ℕ → K → Bool × Limiter K
  would_allow_at none l now key = (true, l)
  would_allow_at (some dq) l now key =
      let live = prune l.window now dq in
      (ltb (length live) l.max_events, with_events l (put key live l.events))

  unfoldable pub would_allow : Limiter K → ℕ → K → Bool × Limiter K
  unfolding prune put get
  would_allow l now key = would_allow_at (get key l.events) l now key

  unfoldable pub record_event : Limiter K → ℕ → K → Limiter K
  unfolding prune put get
  record_event l now key =
      let live = prune l.window now (deque_of (get key l.events)) in
      with_events l (put key (live ++ now ∷ []) l.events)

  -- The clock is read twice.
  unfoldable pub allow : Limiter K → ℕ → ℕ → K → Bool × Limiter K
  unfolding would_allow record_event
  allow l now later key =
      let (allowed, l') = would_allow l now key in
      if allowed then (true, record_event l' later key) else (false, l')

  abbrev pub keep_live : List ℕ → K → List (K × List ℕ) → List (K × List ℕ)
  keep_live [] key rest = rest
  keep_live (t ∷ live) key rest = (key, t ∷ live) ∷ rest

  unfoldable pub sweep_events : ℕ → ℕ → List (K × List ℕ) → List (K × List ℕ)
  unfolding prune
  sweep_events window now [] = []
  sweep_events window now ((key, dq) ∷ rest) =
      keep_live (prune window now dq) key (sweep_events window now rest)

  abbrev pub sweep : Limiter K → ℕ → Limiter K
  sweep l now = with_events l (sweep_events l.window now l.events)

  abbrev pub active_keys : Limiter K → ℕ
  active_keys l = length l.events
