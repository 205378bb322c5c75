-- ===== src/Legality/Justified/Claims.antt =====
-- The actions of mahjong/engine/legality/claim.py.
use mahjong_server_bot_zoo.Prelude.{
  ℕ, ◌+◌, ◌-◌, ◌≤◌, ◌<◌, ◌≡◌, ◌≢◌, ◌⊎◌, inl, inr, refl, true, false, not, ◌&&◌, ◌||◌, some, List,
  [], ◌∷◌, arith, length, All, All-append, All-imp, Bool, Bool-cases, get_elem?, eqb, leb, ltb,
  if◌then◌else◌, ◌==◌, ==_iff, keep, ◌%◌,
}
use mathlib.Core.Path.{sym, subst}
use mahjong_server_bot_zoo.Prelude.Counting.{count}
use mahjong_server_bot_zoo.Prelude.Every.{keep-All, All-and, all-All, All-count, count-keep-le}
use mahjong_server_bot_zoo.Prelude.Seq.{ok, Returns, Returns-bind}
use mahjong_server_bot_zoo.Prelude.Sorting.{sort}
use mahjong_server_bot_zoo.Tiles.{Tile, Section, wan, bing, tiao, tile_le, tile_eq}
use mahjong_server_bot_zoo.State.{Action, GangKind, Seat, WinType, LastDiscard, GameState}
use mahjong_server_bot_zoo.Rules.{Config, Env, resolve_config}
use mahjong_server_bot_zoo.Legality.{
  is_nil, run_from, needed, has_all, same_section, chi_at, chi_actions, claim_hu_legal, meld_claims,
  claims_on, claim_actions, is_suited,
}
use mahjong_server_bot_zoo.Legality.Total.{IsWin, fills, claim_hu_legal-Returns}
use mahjong_server_bot_zoo.Transition.Invariant.{HandIsSound, TableIsSound}

-- Runs are of characters, dots or bamboos.
abbrev pub IsSuit : Section → Type 0
IsSuit wan = Unit
IsSuit bing = Unit
IsSuit tiao = Unit
IsSuit _ = ⊥

suited-IsSuit : (s : Section) → is_suited s ≡ true → IsSuit s
suited-IsSuit wan h = tt
suited-IsSuit bing h = tt
suited-IsSuit tiao h = tt
suited-IsSuit _ h = absurd (cc)

-- A run of a suit around the called tile, with ranks from 1 to 9, whose other tiles are in the hand.
pub record ChiFits (called : Tile) (hand : List Tile) (ts : List Tile) : Type 0 where
  pub start : ℕ
  pub run : ts ≡ run_from called.section start
  pub suited : IsSuit called.section
  pub low : 1 ≤ start
  pub high : start + 2 ≤ 9
  pub from_start : start ≤ called.rank
  pub to_end : called.rank ≤ start + 2
  pub held : All (λ t. (t ≡ called) ⊎ (0 < count t hand)) (run_from called.section start)

-- The hand wins with the discard under the ruleset of the state.
abbrev pub WinsOn : Env → GameState → Seat → Tile → Type 0
WinsOn env s p called =
    (c : Config) × (resolve_config env s.rules ≡ ok c)
    × (length p.concealed % 3 ≡ 1)
    × IsWin env c p.concealed p.melds called WinType.discard p.seat_wind s.round_wind

-- What the rules ask of a seat that claims a discard: a pair in hand for PENG; three in hand and a
-- tile left to draw for a kong; for CHI a run, and the place after the discarder, which `is_next`
-- tells; a winning hand for HU.
abbrev pub MayClaim : Env → GameState → Bool → Tile → Seat → Action → Type 0
MayClaim env s is_next called p Action.pass = Unit
MayClaim env s is_next called p Action.hu = WinsOn env s p called
MayClaim env s is_next called p (Action.peng t) = (t ≡ called) × (2 ≤ count t p.concealed)
MayClaim env s is_next called p (Action.gang t GangKind.exposed) =
    (t ≡ called) × (3 ≤ count t p.concealed) × (0 < length s.wall.remaining)
MayClaim env s is_next called p (Action.chi ts) = (is_next ≡ true) × ChiFits called p.concealed ts
MayClaim env s is_next called p _ = ⊥

-- A run is in canonical order as it stands.
pub sort-run_from : (s : Section) (r : ℕ) → sort tile_le (run_from s r) ≡ run_from s r
unfolding sort
sort-run_from s r = ground arith

wanted :
    (called : Tile) (hand ts : List Tile)
    → All (λ t. 0 < count t hand) (needed called ts)
    → All (λ t. (t ≡ called) ⊎ (0 < count t hand)) ts
wanted called hand ts h =
    All-imp (λ t. (not (t == called) ≡ false) ⊎ (0 < count t hand)) _ ts
      (λ t k. elim k [ inl same ↦ inl ((==_iff t called).0 (ground arith)) | inr held ↦ inr held ])
      (keep-All (λ t. 0 < count t hand) (λ t. not (t == called)) ts h)

has_all-count :
    (f : Tile → Bool) (hand want : List Tile)
    → has_all (keep f hand) want ≡ true
    → All (λ t. 0 < count t hand) want
has_all-count f hand want h =
    All-imp (λ t. (0 < count t want) × (leb (count t want) (count t (keep f hand)) ≡ true)) _ want
      (λ t k. ground (arith, count-keep-le f t hand))
      (All-and (λ t. 0 < count t want) (λ t. leb (count t want) (count t (keep f hand)) ≡ true) want
        (All-count want) (all-All (λ t. leb (count t want) (count t (keep f hand))) want h))

module _ (env : Env) (s : GameState) (is_next : Bool) (called : Tile) (p : Seat) where
  abbrev May : Action → Type 0
  May = MayClaim env s is_next called p

  abbrev fits_at : ℕ → Bool
  fits_at back =
      has_all (same_section called.section p.concealed)
        (needed called (run_from called.section (called.rank - back)))

  chi_at-All :
      (back : ℕ)
      → back ≤ 2
      → IsSuit called.section
      → is_next ≡ true
      → All May (chi_at p.concealed called back)
  unfolding chi_at
  chi_at-All back small suit next =
      elim (Bool-cases (leb called.rank back || ltb 9 (called.rank - back + 2))) [
        | inl out ↦ rw out tt
        | inr within ↦ elim (Bool-cases (fits_at back)) [
          | inr lacking ↦ rw (within, lacking) tt
          | inl held ↦
              rw (within, held)
                (
                  (
                    next,
                    record {
                      start = called.rank - back;
                      run = sort-run_from called.section (called.rank - back);
                      suited = suit;
                      low = ground arith;
                      high = ground arith;
                      from_start = omega arith;
                      to_end = ground arith;
                      held =
                          wanted called p.concealed (run_from called.section (called.rank - back))
                            (has_all-count _ p.concealed _ held);
                    },
                  ),
                  tt,
                )
        ]
      ]

  chi_actions-All : is_next ≡ true → All May (chi_actions p.concealed called)
  unfolding chi_actions
  chi_actions-All next = elim (Bool-cases (is_suited called.section)) [
    | inr honour ↦ rw honour tt
    | inl suited ↦ rw suited (
        let suit : IsSuit called.section = suited-IsSuit called.section suited in
        All-append May (chi_at p.concealed called 2) _ (chi_at-All 2 (omega arith) suit next) (
          All-append May (chi_at p.concealed called 1) _ (chi_at-All 1 (omega arith) suit next)
            (chi_at-All 0 (omega arith) suit next)))
  ]

  peng-All : All May (if leb 2 (count called p.concealed) then Action.peng called ∷ [] else [])
  peng-All = elim (Bool-cases (leb 2 (count called p.concealed))) [
    | inl two ↦ rw two ((refl, ground arith), tt)
    | inr fewer ↦ rw fewer tt
  ]

  gang-All : All May (
      if not (is_nil s.wall.remaining) && leb 3 (count called p.concealed)
      then Action.gang called GangKind.exposed ∷ []
      else [])
  gang-All = elim (Bool-cases (not (is_nil s.wall.remaining) && leb 3 (count called p.concealed))) [
    | inl three ↦ rw three ((refl, ground arith, fills s.wall.remaining (ground arith)), tt)
    | inr fewer ↦ rw fewer tt
  ]

  meld_claims-All : All May (meld_claims s.wall.remaining p.concealed called is_next)
  unfolding meld_claims
  meld_claims-All = All-append May _ _ peng-All (All-append May _ _ gang-All chi-All)
    where
      chi-All : All May (if is_next then chi_actions p.concealed called else [])
      chi-All = elim (Bool-cases is_next) [
        | inl next ↦
            subst (λ b. All May (if b then chi_actions p.concealed called else [])) (sym next)
              (chi_actions-All next)
        | inr other ↦
            subst (λ b. All May (if b then chi_actions p.concealed called else [])) (sym other) tt
      ]

hu-All :
    (P : Action → Type 0) (hu : Bool)
    → (hu ≡ true → P Action.hu)
    → All P (if hu then Action.hu ∷ [] else [])
hu-All P true h = (h refl, tt)
hu-All P false h = tt

-- The listed actions of one seat, for a given open discard.
claims_on-All :
    (env : Env) (s : GameState) (seat : ℕ) (p : Seat) (last : LastDiscard)
    → TableIsSound env s
    → get_elem? s.seats seat ≡ some p
    → Returns (claims_on env (some last) s seat) (
        All
          (λ a. (seat ≢ last.seat) × MayClaim env s (eqb seat ((last.seat + 1) % 4)) last.tile p a))
claims_on-All env s seat p last table found = elim (Bool-cases (eqb seat last.seat)) [
  | inl own ↦ rw own tt
  | inr other ↦
      rw (other, found, table.resolves)
        (let h : HandIsSound p = table.hands seat p found in
          let is_next : Bool = eqb seat ((last.seat + 1) % 4) in
          let may : Action → Type 0 =
            λ a. (seat ≢ last.seat) × MayClaim env s is_next last.tile p a in
          let ne : seat ≢ last.seat = ground arith in
          Returns-bind
            (claim_hu_legal env p.concealed p.melds last.tile p.seat_wind s.round_wind table.config)
            _
            (λ hu.
              hu ≡ true
              → (length p.concealed % 3 ≡ 1)
                × IsWin env table.config p.concealed p.melds last.tile WinType.discard p.seat_wind
                    s.round_wind)
            _
            (claim_hu_legal-Returns env p.concealed p.melds last.tile p.seat_wind s.round_wind
              table.config h.melds h.wind table.round)
            λ hu wins. (
              (ne, tt),
              All-append may (meld_claims s.wall.remaining p.concealed last.tile is_next) _
                  (All-imp (MayClaim env s is_next last.tile p) may _ (λ a k. (ne, k))
                    (meld_claims-All env s is_next last.tile p))
                  (hu-All may hu (λ yes_hu.
                    let (sized, win) = wins yes_hu in
                    (ne, (table.config, table.resolves, sized, win)))),
            ))
]

-- On a sound table with an open discard, `claim_actions` returns, and lists for a seat other than
-- the discarder only what the rules of a claim allow.
pub claim_actions-All :
    (env : Env) (s : GameState) (seat : ℕ) (p : Seat) (last : LastDiscard)
    → TableIsSound env s
    → s.last_discard ≡ some last
    → get_elem? s.seats seat ≡ some p
    → Returns (claim_actions env s seat) (
        All
          (λ a. (seat ≢ last.seat) × MayClaim env s (eqb seat ((last.seat + 1) % 4)) last.tile p a))
unfolding claim_actions
claim_actions-All env s seat p last table opened found =
    subst
      (λ o. Returns (claims_on env o s seat) (
        All (λ a.
          (seat ≢ last.seat) × MayClaim env s (eqb seat ((last.seat + 1) % 4)) last.tile p a)))
      (sym opened) (claims_on-All env s seat p last table found)
