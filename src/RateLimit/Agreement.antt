-- ===== src/RateLimit/Agreement.antt =====
-- Each call of mahjong/server/ratelimit.py answers as its specification does.
use mathlib.Core.Path.{subst}
use mahjong_server_bot_zoo.Prelude.{
  ℕ, ◌≤◌, ◌<◌, ◌≡◌, refl, sym, ap, Bool, Option, none, some, List, [], ◌∷◌, ◌++◌, arith, ltb,
  length, Eq, ==_iff,
}
use mahjong_server_bot_zoo.RateLimit.{
  Limiter, prune, get, would_allow_at, would_allow, deque_of, record_event, sweep,
}
use mahjong_server_bot_zoo.RateLimit.Pruning.{live}
use mahjong_server_bot_zoo.RateLimit.Keys.{deque-sweep, sweep-Distinct}
use mahjong_server_bot_zoo.RateLimit.Window.{
  under, Tracks, pruned, pruned-Tracks, later-Tracks, noted-Tracks, logged, Refines,
  written-Refines, pruned_dq,
}

module _ {K : Type 0} ⦃e : Eq K⦄ where
  -- Whether a call answers as specified, and what it leaves.
  pub record Agrees (l : Limiter K) (logs : K → List ℕ) (now : ℕ) (got : Bool × Limiter K)
      (want : Bool × (K → List ℕ)) : Type 0 where
    pub answers : got.0 ≡ want.0
    pub refines : Refines got.1 want.1 now
    pub same_max : got.1.max_events ≡ l.max_events
    pub same_window : got.1.window ≡ l.window

  module _ (l : Limiter K) (logs : K → List ℕ) (latest : ℕ) (room : 0 < l.max_events)
      (spans : 0 < l.window) (r : Refines l logs latest) where
    pub later-Refines : (now : ℕ) → latest ≤ now → Refines l logs now
    later-Refines now le = record {
      distinct = r.distinct;
      tracks = λ k. later-Tracks l.window latest now le _ (logs k) (r.tracks k);
    }

    none_live :
        (now : ℕ) (key : K)
        → latest ≤ now
        → get key l.events ≡ none
        → live l.window now (logs key) ≡ []
    unfolding prune
    none_live now key le found = sym (
        pruned l.window latest now le [] (logs key)
          (subst (λ o. Tracks l.window (deque_of o) (logs key) latest) found (r.tracks key)))

    would_at-Agrees :
        (now : ℕ) (key : K) (o : Option (List ℕ))
        → latest ≤ now
        → get key l.events ≡ o
        → Agrees l logs now
            (would_allow_at o l now key)
            (under l.max_events l.window (logs key) now, logs)
    would_at-Agrees now key none le found = record {
      answers = rw (none_live now key le found) (ground arith);
      refines = later-Refines now le;
      same_max = refl;
      same_window = refl;
    }
    would_at-Agrees now key (some dq) le found = record {
      answers =
          ap (λ d. ltb (length d) l.max_events) (pruned_dq l logs latest now key dq le r found);
      refines =
          written-Refines l logs logs latest now key (prune l.window now dq) le r
            (pruned-Tracks l.window latest now le dq (logs key)
              (subst (λ o. Tracks l.window (deque_of o) (logs key) latest) found (r.tracks key)))
            (λ k ne. refl);
      same_max = refl;
      same_window = refl;
    }

    pub would-Agrees :
        (now : ℕ) (key : K)
        → latest ≤ now
        → Agrees l logs now
            (would_allow l now key)
            (under l.max_events l.window (logs key) now, logs)
    unfolding would_allow
    would-Agrees now key le = would_at-Agrees now key (get key l.events) le refl

    pub record-Refines :
        (now : ℕ) (key : K)
        → latest ≤ now
        → Refines (record_event l now key) (logged logs key now) now
    unfolding record_event
    record-Refines now key le =
        let dq = deque_of (get key l.events) in
        let here : logged logs key now key ≡ logs key ++ now ∷ [] =
          ground (arith, ==_iff key key) in
        written-Refines l logs (logged logs key now) latest now key
          (prune l.window now dq ++ now ∷ []) le r
          (subst (λ log. Tracks l.window (prune l.window now dq ++ now ∷ []) log now) (sym here)
            (noted-Tracks l.window latest now le dq (logs key) (r.tracks key) spans))
          (λ k ne. ground (arith, ==_iff key k))

    pub sweep-Refines : (now : ℕ) → latest ≤ now → Refines (sweep l now) logs now
    sweep-Refines now le = record {
      distinct = sweep-Distinct l.window now l.events r.distinct;
      tracks = λ k.
          subst (λ d. Tracks l.window d (logs k) now)
            (sym (deque-sweep l.window now k l.events r.distinct))
            (pruned-Tracks l.window latest now le _ (logs k) (r.tracks k));
    }
