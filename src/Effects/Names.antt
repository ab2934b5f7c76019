-- ===== src/Effects/Names.antt =====
-- m2b.ts: the names under which the effects read records. Those that every object inherits are outside
-- of the model, see `Dict`: the source finds members of `Object.prototype` under them.
use malign_ai.Base.{String, Bool, true, Option, none, some, List, [], ◌&&◌, not, all, map, ◌≡◌}
use malign_ai.Base.Dict.{values, is_inherited}
use malign_ai.Effects.Types.{
  State, Campaign, ResourceSpend, EffectContext, Value, null, bool, num, str, array, object, Items,
  no_items, cons, Fields, no_fields, field,
}

abbrev is_own : String → Bool
is_own name = not (is_inherited name)

-- The texts of a parameter and the keys in it.
abbrev mutual
  value_is_own : Value → Bool
  value_is_own null = true
  value_is_own (bool _) = true
  value_is_own (num _) = true
  value_is_own (str text) = is_own text
  value_is_own (array items) = items_are_own items
  value_is_own (object fields) = fields_are_own fields

  items_are_own : Items → Bool
  items_are_own no_items = true
  items_are_own (cons value items) = value_is_own value && items_are_own items

  fields_are_own : Fields → Bool
  fields_are_own no_fields = true
  fields_are_own (field key value rest) = is_own key && value_is_own value && fields_are_own rest

abbrev owner_is_own : Option String → Bool
owner_is_own none = true
owner_is_own (some id) = is_own id

abbrev spenders : Option (List ResourceSpend) → List String
spenders none = []
spenders (some spends) = map (λ s. s.participant_id) spends

-- None of the ids in a call is inherited, nor one of those that the state refers to: the cards of the
-- campaigns, the owners of the markers, and who has spent resources.
pub record HasOwnNames (s : State) (c : EffectContext) : Type 0 where
  pub actor : is_own c.actor_participant_id ≡ true
  pub parameters : all value_is_own (values c.parameters) ≡ true
  pub cards : all (λ (k : Campaign). all is_own k.card_ids) (values s.campaigns) ≡ true
  pub owners : all owner_is_own (values s.legitimacy_by_pd) ≡ true
  pub spent : all is_own (spenders s.resource_spends) ≡ true
