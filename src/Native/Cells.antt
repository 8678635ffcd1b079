-- ===== src/Native/Cells.antt =====
-- What the service relies on of the package @ton/ton, which the repository does not contain: cells, bags
-- of cells, and the reading of slices. A reading that throws is none.
use telegram_garant_contract.Common.{
  ℕ, ◌+◌, ◌^◌, ◌≤◌, Bool, true, ltb, List, [], ◌∷◌, Text, Option, some, all, ◌≡◌,
}

-- What a builder stores.
pub data Field : Type 0 where
  uint : ℕ → ℕ → Field
  coins : ℕ → Field

pub record Cells : Type 1 where
  pub Cell : Type 0
  pub Slice : Type 0
  -- `Cell.fromBoc(Buffer.from(text, "base64"))`
  pub from_boc : Text → Option (List Cell)
  -- `Cell.fromBoc(Buffer.from(text, "hex"))`
  pub from_hex_boc : Text → Option (List Cell)
  -- `cell.toBoc().toString("base64")`
  pub to_boc : Cell → Text
  -- `cell.hash().toString("hex")`
  pub hash : Cell → Text
  pub begin_parse : Cell → Slice
  -- `beginCell()` with the stores, and `endCell()`
  pub end_cell : List Field → Option Cell
  pub load_uint : ℕ → Slice → Option (ℕ × Slice)
  pub load_coins : Slice → Option (ℕ × Slice)
  pub load_ref : Slice → Option (Cell × Slice)
  pub remaining_bits : Slice → ℕ
  pub remaining_refs : Slice → ℕ

-- A value fits its field; coins have at most 120 bits.
abbrev pub fits : Field → Bool
fits (Field.uint w v) = ltb v (2 ^ w)
fits (Field.coins v) = ltb v (2 ^ 120)

-- The bits of a field at most.
unfoldable pub field_bits : List Field → ℕ
field_bits [] = 0
field_bits (Field.uint w v ∷ fs) = w + field_bits fs
field_bits (Field.coins v ∷ fs) = 124 + field_bits fs

-- The documented behaviour: fields that fit and have 1023 bits at most make a cell, what was stored is read
-- back in its order, and a bag of one cell is that cell.
pub record CellLaws (c : Cells) : Type 0 where
  pub slice_of : List Field → c.Slice
  pub built :
      (fs : List Field)
      → all fits fs ≡ true
      → field_bits fs ≤ 1023
      → (cell : c.Cell) × (c.end_cell fs ≡ some cell) × (c.begin_parse cell ≡ slice_of fs)
  pub uint_read :
      (w v : ℕ) (fs : List Field)
      → all fits (Field.uint w v ∷ fs) ≡ true
      → field_bits (Field.uint w v ∷ fs) ≤ 1023
      → c.load_uint w (slice_of (Field.uint w v ∷ fs)) ≡ some (v, slice_of fs)
  pub coins_read :
      (v : ℕ) (fs : List Field)
      → all fits (Field.coins v ∷ fs) ≡ true
      → field_bits (Field.coins v ∷ fs) ≤ 1023
      → c.load_coins (slice_of (Field.coins v ∷ fs)) ≡ some (v, slice_of fs)
  pub no_bits : c.remaining_bits (slice_of []) ≡ 0
  pub no_refs : (fs : List Field) → c.remaining_refs (slice_of fs) ≡ 0
  pub bag : (cell : c.Cell) → c.from_boc (c.to_boc cell) ≡ some (cell ∷ [])
