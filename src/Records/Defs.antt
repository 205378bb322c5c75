-- ===== src/Records/Defs.antt =====
-- The names of the two children: diff.py and replay.py of mahjong/records/
mod Diff
mod Replay
unfoldable pub use Diff.*
unfoldable pub use Replay.*
