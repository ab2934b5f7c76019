-- ===== src/Rules/Ert.antt =====
-- packages/rules/src/ert.ts and ert-data.ts
pub mod Table
use malign_ai.Base.{
  ℕ, ◌-◌, List, [], ◌∷◌, none, some, ◌||◌, get_elem?, if◌then◌else◌, Result, ok, err, Exception,
  range_error,
}
use malign_ai.Base.Int.{ℤ, pos, negsuc, ltb_ℤ, min_ℤ, max_ℤ, pos_part}
use malign_ai.Base.Number.{Number, int, non_integer}
use malign_ai.Rules.Types.{CampaignTier, low, medium, high, CampaignAlignment, malign, resiliency}

pub record ErtCell : Type 0 where
  pub at_malign : ℤ
  pub at_resiliency : ℤ

pub record ErtRow : Type 0 where
  pub at_low : ErtCell
  pub at_medium : ErtCell
  pub at_high : ErtCell

abbrev minus : ℕ → ℤ
minus n = negsuc (n - 1)

abbrev cell : ℤ → ℤ → ErtCell
cell m r = record { at_malign = m; at_resiliency = r }

abbrev row : ErtCell → ErtCell → ErtCell → ErtRow
row l m h = record { at_low = l; at_medium = m; at_high = h }

-- A cell with one value for both alignments.
abbrev both : ℕ → ErtCell
both n = cell (pos n) (pos n)

unfoldable pub ert_table : List ErtRow
ert_table =
    row (cell (minus 2) (minus 1)) (cell (minus 2) (minus 1)) (cell (minus 2) (minus 1))
    ∷ row (cell (minus 1) (minus 1)) (cell (minus 1) (pos 0)) (cell (minus 1) (pos 0))
    ∷ row (cell (minus 1) (pos 0)) (cell (minus 1) (pos 0)) (both 0)
    ∷ row (both 0) (both 0) (both 1)
    ∷ row (both 0) (both 1) (both 1)
    ∷ row (both 1) (both 1) (both 2)
    ∷ row (both 1) (both 2) (both 3)
    ∷ row (both 1) (both 2) (both 3)
    ∷ row (both 2) (both 3) (both 4)
    ∷ row (both 2) (both 3) (both 4)
    ∷ []

pub record NormalizedErtRoll : Type 0 where
  pub modified_roll_raw : ℤ
  pub ert_roll : ℤ

unfoldable pub normalize_ert_roll : Number → Result Exception NormalizedErtRoll
normalize_ert_roll (int raw) =
    ok (record { modified_roll_raw = raw; ert_roll = min_ℤ (pos 10) (max_ℤ (pos 1) raw) })
normalize_ert_roll non_integer = err range_error

-- `row[tier][alignment]`
abbrev pub in_row : ErtRow → CampaignTier → ErtCell
in_row r low = r.at_low
in_row r medium = r.at_medium
in_row r high = r.at_high

abbrev pub in_cell : ErtCell → CampaignAlignment → ℤ
in_cell c malign = c.at_malign
in_cell c resiliency = c.at_resiliency

unfoldable pub lookup_ert : CampaignTier → CampaignAlignment → Number → Result Exception ℤ
lookup_ert tier alignment non_integer = err range_error
lookup_ert tier alignment (int roll) =
    if ltb_ℤ roll (pos 1) || ltb_ℤ (pos 10) roll
    then err range_error
    else elim (get_elem? ert_table (pos_part roll - 1)) [
      | none ↦ err range_error
      | some r ↦ ok (in_cell (in_row r tier) alignment)
    ]
