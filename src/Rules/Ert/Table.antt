-- ===== src/Rules/Ert/Table.antt =====
-- The effect resolution table as a function of a roll, a tier and an alignment.
use malign_ai.Base.{
  Bool, true, ◌&&◌, ℕ, zero, suc, ◌-◌, ◌≤◌, ◌<◌, ◌≡◌, refl, List, [], ◌∷◌, some, none, get_elem?,
  length, Result, ok, ◌>>=◌, Exception, arith,
}
use malign_ai.Base.Int.{ℤ, pos, negsuc, ◌≤ℤ◌, min_ℤ, max_ℤ, pos_part, leb_ℤ}
use malign_ai.Base.Number.{int}
use malign_ai.Rules.Types.{
  CampaignTier, CampaignAlignment, malign, resiliency, low, medium, high, tier_index,
}
use malign_ai.Rules.Ert.{ErtRow, in_row, in_cell, ert_table, normalize_ert_roll, lookup_ert}

-- What a campaign's raw roll gives: it is brought into the table's range and looked up.
pub effect_of : CampaignTier → CampaignAlignment → ℤ → Result Exception ℤ
effect_of tier alignment raw = do
  n ← normalize_ert_roll (int raw)
  lookup_ert tier alignment (int n.ert_roll)

-- One row is below another in every cell, also at a higher tier of the other row.
abbrev RowLe : ErtRow → ErtRow → Type 0
RowLe r s =
    (t u : CampaignTier) (a : CampaignAlignment)
    → tier_index t ≤ tier_index u
    → in_cell (in_row r t) a ≤ℤ in_cell (in_row s u) a

abbrev column_leb : ErtRow → ErtRow → CampaignAlignment → Bool
column_leb r s a =
    leb_ℤ (in_cell r.at_low a) (in_cell s.at_low a)
    && leb_ℤ (in_cell r.at_medium a) (in_cell s.at_medium a)
    && leb_ℤ (in_cell r.at_high a) (in_cell s.at_high a)
    && leb_ℤ (in_cell s.at_low a) (in_cell s.at_medium a)
    && leb_ℤ (in_cell s.at_medium a) (in_cell s.at_high a)

row_leb : ErtRow → ErtRow → Bool
row_leb r s = column_leb r s malign && column_leb r s resiliency

column_leb-le :
    (r s : ErtRow) (t u : CampaignTier) (a : CampaignAlignment)
    → column_leb r s a ≡ true
    → tier_index t ≤ tier_index u
    → in_cell (in_row r t) a ≤ℤ in_cell (in_row s u) a
column_leb-le r s low low a h le = ground arith
column_leb-le r s low medium a h le = ground arith
column_leb-le r s low high a h le = ground arith
column_leb-le r s medium medium a h le = ground arith
column_leb-le r s medium high a h le = ground arith
column_leb-le r s high high a h le = ground arith
column_leb-le r s _ _ a h le = absurd (omega arith)

row_leb-RowLe : (r s : ErtRow) → row_leb r s ≡ true → RowLe r s
unfolding row_leb
row_leb-RowLe r s h t u malign le = column_leb-le r s t u malign (ground arith) le
row_leb-RowLe r s h t u resiliency le = column_leb-le r s t u resiliency (ground arith) le

is_rising : List ErtRow → Bool
unfolding row_leb
is_rising [] = true
is_rising (r ∷ []) = row_leb r r
is_rising (r ∷ s ∷ rows) = row_leb r r && (row_leb r s && is_rising (s ∷ rows))

abbrev IsRising : List ErtRow → Type 0
IsRising [] = Unit
IsRising (r ∷ []) = RowLe r r
IsRising (r ∷ s ∷ rows) = RowLe r r × RowLe r s × IsRising (s ∷ rows)

and_parts : (a b : Bool) → (a && b) ≡ true → (a ≡ true) × (b ≡ true)
and_parts a b h = ground arith

is_rising-IsRising : (rows : List ErtRow) → is_rising rows ≡ true → IsRising rows
unfolding is_rising
is_rising-IsRising [] h = tt
is_rising-IsRising (r ∷ []) h = row_leb-RowLe r r h
is_rising-IsRising (r ∷ s ∷ rows) h =
    let (here, rest) = and_parts _ _ h in
    let (next, tail) = and_parts _ _ rest in
    (row_leb-RowLe r r here, row_leb-RowLe r s next, is_rising-IsRising (s ∷ rows) tail)

abbrev cell_at : List ErtRow → ℕ → CampaignTier → CampaignAlignment → ℤ
cell_at rows i t a = elim (get_elem? rows i) [ none ↦ pos 0 | some r ↦ in_cell (in_row r t) a ]

IsRising-tail : (r : ErtRow) (rows : List ErtRow) → IsRising (r ∷ rows) → IsRising rows
IsRising-tail r [] h = tt
IsRising-tail r (s ∷ rows) h = h.2

IsRising-from_head :
    (r : ErtRow) (rows : List ErtRow) (j : ℕ) (t u : CampaignTier) (a : CampaignAlignment)
    → IsRising (r ∷ rows)
    → j < length (r ∷ rows)
    → tier_index t ≤ tier_index u
    → in_cell (in_row r t) a ≤ℤ cell_at (r ∷ rows) j u a
IsRising-from_head r [] zero t u a h lt le = h t u a le
IsRising-from_head r [] (suc j) t u a h lt le = absurd (omega arith)
IsRising-from_head r (s ∷ rows) zero t u a h lt le = h.0 t u a le
IsRising-from_head r (s ∷ rows) (suc j) t u a h lt le =
    omega (arith, h.1 t t a (omega arith), IsRising-from_head s rows j t u a h.2 (omega arith) le)

cell_at-mono :
    (rows : List ErtRow) (i j : ℕ) (t u : CampaignTier) (a : CampaignAlignment)
    → IsRising rows
    → i ≤ j
    → j < length rows
    → tier_index t ≤ tier_index u
    → cell_at rows i t a ≤ℤ cell_at rows j u a
cell_at-mono [] i j t u a h le lt tl = absurd (omega arith)
cell_at-mono (r ∷ rows) zero j t u a h le lt tl = IsRising-from_head r rows j t u a h lt tl
cell_at-mono (r ∷ rows) (suc i) zero t u a h le lt tl = absurd (omega arith)
cell_at-mono (r ∷ rows) (suc i) (suc j) t u a h le lt tl =
    cell_at-mono rows i j t u a (IsRising-tail r rows h) (omega arith) (omega arith) tl

ert_table-IsRising : IsRising ert_table
unfolding ert_table is_rising
ert_table-IsRising = is_rising-IsRising ert_table refl

abbrev clamp : ℤ → ℤ
clamp raw = min_ℤ (pos 10) (max_ℤ (pos 1) raw)

clamp_lem : (raw : ℤ) → clamp raw ≡ pos (pos_part (clamp raw))
clamp_lem raw = ground arith

clamp_range : (raw : ℤ) → (1 ≤ pos_part (clamp raw)) × (pos_part (clamp raw) ≤ 10)
clamp_range raw = ground arith

clamp_mono : (a b : ℤ) → a ≤ℤ b → pos_part (clamp a) ≤ pos_part (clamp b)
clamp_mono a b h = ground arith

ert_table-length : length ert_table ≡ 10
unfolding ert_table
ert_table-length = refl

get_elem?_total :
    (rows : List ErtRow) (i : ℕ) → i < length rows → (r : ErtRow) × (get_elem? rows i ≡ some r)
get_elem?_total [] i h = absurd (omega arith)
get_elem?_total (r ∷ rows) zero h = (r, refl)
get_elem?_total (r ∷ rows) (suc i) h = get_elem?_total rows i (omega arith)

lookup_ert_lem :
    (t : CampaignTier) (a : CampaignAlignment) (n : ℕ)
    → 1 ≤ n
    → n ≤ 10
    → lookup_ert t a (int (pos n)) ≡ ok (cell_at ert_table (n - 1) t a)
unfolding lookup_ert
lookup_ert_lem t a n lo hi =
    let (r, e) = get_elem?_total ert_table (n - 1) (omega (arith, ert_table-length)) in
    ground (arith, e)

effect_of_lem :
    (t : CampaignTier) (a : CampaignAlignment) (raw : ℤ)
    → effect_of t a raw ≡ ok (cell_at ert_table (pos_part (clamp raw) - 1) t a)
unfolding effect_of normalize_ert_roll
effect_of_lem t a raw =
    rw (clamp_lem raw)
      (lookup_ert_lem t a (pos_part (clamp raw)) (clamp_range raw).0 (clamp_range raw).1)

tier_index_le : (t : CampaignTier) → tier_index t ≤ 2
tier_index_le t = ground arith

lowest : (a : CampaignAlignment) → negsuc 1 ≤ℤ cell_at ert_table 0 low a
unfolding ert_table
lowest malign = omega arith
lowest resiliency = omega arith

highest : (a : CampaignAlignment) → cell_at ert_table 9 high a ≤ℤ pos 4
unfolding ert_table
highest malign = omega arith
highest resiliency = omega arith

at_least :
    (i : ℕ) (t : CampaignTier) (a : CampaignAlignment)
    → i < 10
    → negsuc 1 ≤ℤ cell_at ert_table i t a
at_least i t a h = omega (
  arith,
  lowest a,
  cell_at-mono ert_table 0 i low t a ert_table-IsRising (omega arith)
      (omega (arith, ert_table-length)) (omega arith),
)

at_most :
    (i : ℕ) (t : CampaignTier) (a : CampaignAlignment) → i < 10 → cell_at ert_table i t a ≤ℤ pos 4
at_most i t a h = omega (
  arith,
  highest a,
  cell_at-mono ert_table i 9 t high a ert_table-IsRising (omega arith)
      (omega (arith, ert_table-length)) (tier_index_le t),
)

-- Any integer roll, however far outside the table, has an effect; a higher roll or a higher tier
-- never gives a smaller effect; and effects lie between -2 and 4.
pub effect_of_mono :
    (t u : CampaignTier) (a : CampaignAlignment) (low_roll high_roll : ℤ)
    → tier_index t ≤ tier_index u
    → low_roll ≤ℤ high_roll
    → (v : ℤ) × (w : ℤ) × (effect_of t a low_roll ≡ ok v)
      × (effect_of u a high_roll ≡ ok w)
      × (v ≤ℤ w)
      × (negsuc 1 ≤ℤ v)
      × (w ≤ℤ pos 4)
effect_of_mono t u a low_roll high_roll tl le =
    let i = pos_part (clamp low_roll) in
    let j = pos_part (clamp high_roll) in
    (
      cell_at ert_table (i - 1) t a,
      cell_at ert_table (j - 1) u a,
      effect_of_lem t a low_roll,
      effect_of_lem u a high_roll,
      cell_at-mono ert_table (i - 1) (j - 1) t u a ert_table-IsRising
          (omega (arith, clamp_mono low_roll high_roll le))
          (omega (arith, clamp_range high_roll, ert_table-length)) tl,
      at_least (i - 1) t a (omega (arith, clamp_range low_roll)),
      at_most (j - 1) u a (omega (arith, clamp_range high_roll)),
    )
