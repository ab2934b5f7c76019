-- ===== src/Effects/Registry.antt =====
-- m2b.ts and m2-effect-manifest.ts: the registered effects, and the pairs of cards with a bonus.
use malign_ai.Base.{
  ℕ, ◌+◌, String, Bool, List, [], ◌∷◌, ◌&&◌, map, contains, string_eq, if◌then◌else◌,
}
use malign_ai.Base.Text.{◌<>◌}

abbrev pub effect : String → String
effect number = "CARD_EFFECT_BASE_2025_E" <> number

abbrev card : String → String
card number = "CARD_DEF_BASE_2025_D" <> number

unfoldable pub pair_bonus_effect_ids : List String
pair_bonus_effect_ids = map effect (
    "002" ∷ "003" ∷ "004" ∷ "005" ∷ "007" ∷ "008" ∷ "009" ∷ "011" ∷ "018" ∷ "020" ∷ "023" ∷ "024"
    ∷ "027" ∷ "029" ∷ "030" ∷ "032" ∷ "037" ∷ "038" ∷ "041" ∷ "043" ∷ "044" ∷ "049" ∷ "052" ∷ [])

unfoldable pub target_dt_effect_ids : List String
target_dt_effect_ids = map effect ("034" ∷ "055" ∷ "056" ∷ "057" ∷ "058" ∷ "059" ∷ [])

abbrev both_cards : String × String → String × String
both_cards (left, right) = (card left, card right)

unfoldable pub base_2025_pair_bonuses : List (String × String)
base_2025_pair_bonuses = map both_cards (
    ("002", "098")
    ∷ ("008", "044")
    ∷ ("009", "029")
    ∷ ("010", "052")
    ∷ ("013", "024")
    ∷ ("015", "002")
    ∷ ("017", "022")
    ∷ ("020", "016")
    ∷ ("033", "098")
    ∷ ("038", "053")
    ∷ ("046", "067")
    ∷ ("049", "076")
    ∷ ("055", "072")
    ∷ ("057", "077")
    ∷ ("058", "019")
    ∷ ("060", "089")
    ∷ ("066", "084")
    ∷ ("068", "025")
    ∷ ("074", "004")
    ∷ ("077", "083")
    ∷ ("078", "004")
    ∷ ("086", "045")
    ∷ ("090", "025")
    ∷ [])

abbrev entry : String × String → String × String
entry (effect_id, definition_id) = (effect effect_id, card definition_id)

-- The entries of the manifest, an effect's id and its card's definition.
unfoldable pub effect_manifest : List (String × String)
effect_manifest = map entry (
    ("001", "001")
    ∷ ("002", "002")
    ∷ ("003", "008")
    ∷ ("004", "009")
    ∷ ("005", "010")
    ∷ ("006", "012")
    ∷ ("007", "013")
    ∷ ("008", "015")
    ∷ ("009", "017")
    ∷ ("010", "018")
    ∷ ("011", "020")
    ∷ ("012", "021")
    ∷ ("013", "023")
    ∷ ("014", "026")
    ∷ ("015", "028")
    ∷ ("016", "031")
    ∷ ("017", "032")
    ∷ ("018", "033")
    ∷ ("019", "037")
    ∷ ("020", "038")
    ∷ ("021", "042")
    ∷ ("022", "043")
    ∷ ("023", "046")
    ∷ ("024", "049")
    ∷ ("025", "051")
    ∷ ("026", "054")
    ∷ ("027", "055")
    ∷ ("028", "056")
    ∷ ("029", "057")
    ∷ ("030", "058")
    ∷ ("031", "059")
    ∷ ("032", "060")
    ∷ ("033", "061")
    ∷ ("034", "063")
    ∷ ("035", "064")
    ∷ ("036", "065")
    ∷ ("037", "066")
    ∷ ("038", "068")
    ∷ ("039", "069")
    ∷ ("040", "073")
    ∷ ("041", "074")
    ∷ ("042", "075")
    ∷ ("043", "077")
    ∷ ("044", "078")
    ∷ ("045", "080")
    ∷ ("046", "081")
    ∷ ("047", "082")
    ∷ ("048", "085")
    ∷ ("049", "086")
    ∷ ("050", "087")
    ∷ ("051", "088")
    ∷ ("052", "090")
    ∷ ("053", "093")
    ∷ ("054", "094")
    ∷ ("055", "096")
    ∷ ("056", "097")
    ∷ ("057", "098")
    ∷ ("058", "099")
    ∷ ("059", "100")
    ∷ [])

-- `present.has(left) && present.has(right)`
abbrev pub is_present : List String → String × String → Bool
is_present definition_ids (left, right) =
    contains left definition_ids && contains right definition_ids

-- The `reduce` over the pairs.
pub pair_bonus_over : List (String × String) → List String → ℕ
pair_bonus_over [] definition_ids = 0
pair_bonus_over (pair ∷ pairs) definition_ids =
    (if is_present definition_ids pair then 2 else 0) + pair_bonus_over pairs definition_ids

unfoldable pub calculate_registered_pair_bonus : List String → ℕ
unfolding pair_bonus_over base_2025_pair_bonuses
calculate_registered_pair_bonus definition_ids =
    pair_bonus_over base_2025_pair_bonuses definition_ids
