-- ===== src/Tiles.antt =====
-- mahjong/engine/tiles.py: tile tokens, their canonical order and the canonical set of 144.
-- A token is a letter and a digit; `Tile` is that pair, and a text is its list of code points.
pub mod Order
pub mod Canonical
use mahjong_server_bot_zoo.Prelude.{
  ℕ, zero, suc, ◌+◌, ◌-◌, ◌≡◌, ◌↔◌, Bool, true, false, ◌&&◌, ◌||◌, Option, none, some, List, [],
  ◌∷◌, ◌++◌, arith, ltb, leb, eqb, if◌then◌else◌, Eq, replicate,
}

-- The letters W, B, T, F, J, H.
pub data Section : Type 0 where
  wan bing tiao feng jian hua : Section

pub record Tile : Type 0 where
  pub section : Section
  pub rank : ℕ

abbrev pub tile : Section → ℕ → Tile
tile s r = record { section = s; rank = r }

abbrev pub section_index : Section → ℕ
section_index wan = 0
section_index bing = 1
section_index tiao = 2
section_index feng = 3
section_index jian = 4
section_index hua = 5

abbrev pub section_max_rank : Section → ℕ
section_max_rank wan = 9
section_max_rank bing = 9
section_max_rank tiao = 9
section_max_rank feng = 4
section_max_rank jian = 3
section_max_rank hua = 8

abbrev pub section_copies : Section → ℕ
section_copies hua = 1
section_copies _ = 4

abbrev pub letter : Section → ℕ
letter wan = b'W'
letter bing = b'B'
letter tiao = b'T'
letter feng = b'F'
letter jian = b'J'
letter hua = b'H'

abbrev pub tile_beq : Tile → Tile → Bool
tile_beq a b = eqb (section_index a.section) (section_index b.section) && eqb a.rank b.rank

pub tile_beq_iff : (a b : Tile) → (tile_beq a b ≡ true) ↔ (a ≡ b)
tile_beq_iff a b = ground arith

instance abbrev pub tile_eq : Eq Tile
tile_eq = record { beq = tile_beq; beq_iff = tile_beq_iff }

-- The text of a token.
abbrev pub token : Tile → List ℕ
token t = letter t.section ∷ (b'0' + t.rank) ∷ []

abbrev pub section_of : ℕ → Option Section
section_of c =
    if eqb c b'W'
    then some wan
    else if eqb c b'B'
    then some bing
    else if eqb c b'T'
    then some tiao
    else if eqb c b'F'
    then some feng
    else if eqb c b'J'
    then some jian
    else if eqb c b'H'
    then some hua
    else none

unfoldable pub validate_tile : List ℕ → Bool
validate_tile (prefix ∷ rank_char ∷ []) = elim (section_of prefix) [
  | none ↦ false
  | some s ↦
      if leb b'1' rank_char && leb rank_char b'9'
      then leb 1 (rank_char - b'0') && leb (rank_char - b'0') (section_max_rank s)
      else false
]
validate_tile _ = false

-- The tiles of one section from rank `r` on, `n` ranks of them.
abbrev pub section_tiles : Section → ℕ → ℕ → List Tile
section_tiles s r zero = []
section_tiles s r (suc n) = replicate (section_copies s) (tile s r) ++ section_tiles s (r + 1) n

abbrev pub all_sections : List Section
all_sections = wan ∷ bing ∷ tiao ∷ feng ∷ jian ∷ hua ∷ []

abbrev tiles_of_sections : List Section → List Tile
tiles_of_sections [] = []
tiles_of_sections (s ∷ rest) = section_tiles s 1 (section_max_rank s) ++ tiles_of_sections rest

unfoldable pub canonical_tile_set : List Tile
canonical_tile_set = tiles_of_sections all_sections

-- The comparison of `tile_sort_key`s: by section, then by rank.
abbrev pub tile_sort_key : Tile → ℕ × ℕ
tile_sort_key t = (section_index t.section, t.rank)

abbrev pub key_le : ℕ × ℕ → ℕ × ℕ → Bool
key_le (a, b) (c, d) = ltb a c || (eqb a c && leb b d)

abbrev pub tile_le : Tile → Tile → Bool
tile_le a b = key_le (tile_sort_key a) (tile_sort_key b)

-- The comparison of tokens as texts, which plain `sorted` uses.
abbrev pub token_le : Tile → Tile → Bool
token_le a b = key_le (letter a.section, a.rank) (letter b.section, b.rank)

-- `tile.startswith("H")`
abbrev pub is_flower : Tile → Bool
is_flower t = eqb (section_index t.section) 5
