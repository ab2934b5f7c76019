-- ===== src/Cleanup/Rows.antt =====
-- m2b-lifecycle.ts: what is in the rows after the campaigns have aged.
use malign_ai.Base.{
  String, Bool, Option, none, some, List, [], ◌∷◌, ◌≡◌, refl, arith, not, ◌==◌, string_eq, contains,
  eq_iff, if◌then◌else◌, ◌∙◌, ap, inl, inr, Option-cases,
}
use malign_ai.Base.Dict.{Dict, lookup, modify, HasUniqueKeys, lookup-modify, lookup-erase, apply?}
use malign_ai.Base.Named.{IsNamed, test_at, contains-ids, contains-sort_by}
use malign_ai.Effects.Types.{State, Campaign, row_ii}
use malign_ai.Effects.Cards.{or_same, discard_campaign, discard_all, discard_with_lifecycle}
use malign_ai.Cleanup.Aging.{is_row_ii, ids_by, discard_each, age_each, cleanup_campaign_aging}

discard-campaigns :
    (state : State) (id : String)
    → (or_same state (discard_with_lifecycle state id)).campaigns ≡ state.campaigns
unfolding discard_with_lifecycle
discard-campaigns state id = ground arith

discard_all-campaigns :
    (ids : List String) (state : State) → (discard_all ids state).campaigns ≡ state.campaigns
unfolding discard_all
discard_all-campaigns [] state = refl
discard_all-campaigns (id ∷ ids) state =
    discard_all-campaigns ids (or_same state (discard_with_lifecycle state id))
    ∙ discard-campaigns state id

lookup-discard_campaign :
    (state : State) (id k : String)
    → lookup k (or_same state (discard_campaign state id)).campaigns
      ≡ (if id == k then none else lookup k state.campaigns)
unfolding discard_campaign
lookup-discard_campaign state id k = elim (Option-cases (lookup id state.campaigns)) [
  | inl e ↦ ground (arith, eq_iff id k)
  | inr (c, e) ↦ rw e (
      lookup-erase id k (discard_all c.card_ids state).campaigns
      ∙ ap (λ d. if id == k then none else lookup k d) (discard_all-campaigns c.card_ids state))
]

lookup-discard_each :
    (ids : List String) (state : State) (k : String)
    → lookup k (discard_each ids state).campaigns
      ≡ (if contains k ids then none else lookup k state.campaigns)
unfolding discard_each
lookup-discard_each [] state k = refl
lookup-discard_each (id ∷ ids) state k = ground (
  arith,
  lookup-discard_each ids (or_same state (discard_campaign state id)) k,
  lookup-discard_campaign state id k,
)

abbrev to_row_ii : Campaign → Campaign
to_row_ii c = record c { row = row_ii }

lookup-age_each :
    (ids : List String) (d : Dict Campaign) (k : String)
    → lookup k (age_each ids d)
      ≡ (if contains k ids then apply? to_row_ii (lookup k d) else lookup k d)
unfolding age_each
lookup-age_each [] d k = refl
lookup-age_each (id ∷ ids) d k =
    ground (arith, lookup-age_each ids (modify id to_row_ii d) k, lookup-modify id k to_row_ii d)

-- A campaign in row II is gone, and one in row I has moved to row II.
abbrev pub aged_at : Option Campaign → Option Campaign
aged_at none = none
aged_at (some c) = if is_row_ii c.row then none else some (to_row_ii c)

-- Where every campaign stands under its own id, the campaigns of row II are discarded, those of row I
-- stay as they are but for the row, which is II, and there are no others; the ids that are reported
-- as discarded are just those of the campaigns in row II.
pub cleanup_campaign_aging_rows :
    (id_leb : String → String → Bool) (state : State) (k : String)
    → HasUniqueKeys state.campaigns
    → IsNamed (λ (c : Campaign). c.id) state.campaigns
    → (lookup k (cleanup_campaign_aging id_leb state).state.campaigns
        ≡ aged_at (lookup k state.campaigns))
      × (contains k (cleanup_campaign_aging id_leb state).discarded_campaign_ids
          ≡ test_at (λ c. is_row_ii c.row) (lookup k state.campaigns))
unfolding cleanup_campaign_aging
cleanup_campaign_aging_rows id_leb state k u n =
    let old : List String = ids_by id_leb (λ c. is_row_ii c.row) state.campaigns in
    let young : List String = ids_by id_leb (λ c. not (is_row_ii c.row)) state.campaigns in
    let in_old : contains k old ≡ test_at (λ c. is_row_ii c.row) (lookup k state.campaigns) =
      contains-sort_by id_leb k _
      ∙ contains-ids (λ (c : Campaign). c.id) (λ c. is_row_ii c.row) k state.campaigns u n in
    let in_young : contains k young
        ≡ test_at (λ c. not (is_row_ii c.row)) (lookup k state.campaigns) =
      contains-sort_by id_leb k _
      ∙ contains-ids (λ (c : Campaign). c.id) (λ c. not (is_row_ii c.row)) k state.campaigns u n in
    (
      ground (
        arith,
        in_old,
        in_young,
        lookup-age_each young (discard_each old state).campaigns k,
        lookup-discard_each old state k,
      ),
      in_old,
    )
