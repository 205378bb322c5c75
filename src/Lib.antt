-- ===== src/Lib.antt =====
-- A model of the mahjong engine of this repository (mahjong/engine/), of the table that plays it, of
-- its records, of one bot and of the rate limiter, with the theorems that make them correct.
--
-- The engine is a set of pure functions on a game state: `initial_state` deals a hand, `legal_actions`
-- lists what a seat may do, and `apply_action` checks an action against that list and hands it to
-- one of six transitions, which draw, open and close the window of claims, and settle a win. The
-- ruleset and the fan calculator are consulted on the way. The table (mahjong/table/) asks the seats
-- and applies their answers until the hand is over, and writes a record (mahjong/records/) from which
-- the hand can be replayed. The bot v0 (mahjong/bots/v0.py) answers from a seat's view and its legal
-- actions. The rate limiter of the server (mahjong/server/ratelimit.py) stands apart.
--
-- Which file models which part:
--   Tiles is for mahjong/engine/tiles.py. A token is a section and a rank.
--   State is for mahjong/engine/types.py. Dictionaries are records; the literal types are data types.
--   Rules is for mahjong/engine/rulesets/ (Rules/Load), mahjong/engine/pymj.py (Rules/Pymj, Rules/Waits) and
--   mahjong/engine/scoring.py (Rules/Scoring). Rules/Inputs holds the record `Env` of what the
--   engine takes from outside: the config files, the hash of a config, SHA-256 and the
--   MahjongFanCalculator and MahjongShanten of the MahjongGB package.
--   Legality is for mahjong/engine/legality/, with what a listed action needs in Legality/Justified.
--   Transition is for mahjong/engine/transition/. Definitions stand in Transition/Defs, the invariant in
--   Transition/Invariant, one file for each group of handlers, and `apply_action` as a whole in
--   Transition/Correct.
--   Rng is for mahjong/engine/rng.py.
--   Deal is for `initial_state` of mahjong/engine/state.py: the draws of the deal (Deal/Draws) and the
--   state that results (Deal/Fresh).
--   View is for `project` and `project_event` (View/Events) of the same file.
--   Validate is for the runtime check of mahjong/engine/types.py.
--   Match is for mahjong/table/match_score.py and mahjong/table/rotation.py.
--   Claims is for the choice between claims, the default action and the fallback of a failed answer
--   in mahjong/table/manager.py.
--   Manager is for the hand loop of the same file: a prompt (Manager/Prompts), an applied action
--   (Manager/Playing), a turn (Manager/Turns), a claim window (Manager/Gathering, Manager/Awarding,
--   Manager/Passing, Manager/Windows), the loop (Manager/Running) and `run_hand` (Manager/Whole).
--   The adapters are functions from the pass of the loop and the seat to what came of asking.
--   RateLimit is for mahjong/server/ratelimit.py: pruning (RateLimit/Pruning), the dict
--   (RateLimit/Keys), the log that specifies the limiter (RateLimit/Window), one call
--   (RateLimit/Agreement), sequences of calls (RateLimit/Run) and of `allow` (RateLimit/Bounds).
--   Bots is for mahjong/bots/v0.py: its minima (Bots/Choosing), its distances (Bots/Measured), the
--   discard (Bots/Discarding), where a claim leads (Bots/Reaching), the claim (Bots/Claiming) and
--   `decide_action` (Bots/Deciding). Distances are counted in halves; set iteration, of which only a
--   minimum is taken, is by list.
--   Records is for mahjong/records/diff.py and mahjong/records/replay.py, without files; the states that a
--   replay yields are in Records/History.
--   Prelude is for lists, Boolean tests, signed integers, errors and sums that the parts share.
--   Tests is for the theorems at one table in play, one deal and one match.
--
-- Conventions. The code copies the state before it changes it, so a transition is a function from
-- states to results. An exception is a value of `Result`, and `Returns` says that a call returns
-- and what it returns. Scores are signed; every other number of a state is a natural number, since
-- the code never makes them negative. Tiles of a state are tokens of the canonical set, so the two
-- characters of a token always parse, and the branches of types.py that skip a token or a list of
-- another form have no counterpart. The numbers of a conversion block are natural numbers. The
-- answer of an adapter is an action: one that is no dictionary, on which the table raises, does not
-- occur.
--
-- The two calls of the MahjongGB package return an option; none is their TypeError, which
-- mahjong/engine/pymj.py takes for no win where the fan calculator raises it and lets through where
-- the shanten calculator does. The record of outside parts promises nothing of them:
-- a theorem that needs MahjongShanten to answer takes `Answers` (Legality/Waits) as a hypothesis, that
-- it answers for 13 tiles, three for each meld, without flowers.
--
-- Fuel. Sampling by rejection may need any number of rounds, so it takes fuel, and a loop whose
-- fuel runs out says so; a block of the stream adds bytes in every round, so `rng_bytes` brings
-- its own fuel. `initial_state` takes the fuel of its shuffle. The loop of a hand takes the number of
-- its passes; twice the wall and the tiles in hand bound it.
--
-- Not modelled: everything that is input or output (sockets, processes, SQLite, files), timers and
-- deadlines, the server but for its rate limiter, the sessions, the bots but for v0, and the packages
-- that the code calls; the watchdog of a step (HandStepStalled) in mahjong/table/manager.py, and the
-- settlement statistics and the state hash of HAND_END in mahjong/records/diff.py. The clock of the
-- rate limiter counts natural ticks where the code has floats.
pub mod Prelude
pub mod Tiles
pub mod State
pub mod Rules
pub mod Legality
pub mod Transition
pub mod Rng
pub mod Deal
pub mod View
pub mod Match
pub mod Records
pub mod Manager
pub mod RateLimit
pub mod Bots
pub mod Validate
pub mod Claims
pub mod Tests
