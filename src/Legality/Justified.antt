-- ===== src/Legality/Justified.antt =====
-- What mahjong/engine/legality/ lists, against the rules: each listed action is one that the
-- seat's tiles, melds and place at the table allow.
mod Discards
mod Claims
pub use Discards.{HasPeng, MayDiscard, WinsBy, peng_head, discard_actions-All, All-distinct}
pub use Claims.{ChiFits, MayClaim, WinsOn, IsSuit, claim_actions-All}
