-- ===== src/Rules/Types.antt =====
-- packages/rules/src/types.ts
use malign_ai.Base.{ℕ, Option, ◌≡◌, ◌↔◌, arith, Bool, Eq, ◌==◌, nat_eq}
use malign_ai.Base.Number.{Number}

pub data CampaignSlot : Type 0 where
  intent method amplifier : CampaignSlot

pub data CampaignAlignment : Type 0 where
  malign resiliency : CampaignAlignment

pub data CampaignTier : Type 0 where
  low medium high : CampaignTier

-- `Partial<Record<CampaignSlot, number>>`
pub record SlotValues : Type 0 where
  pub at_intent : Option Number
  pub at_method : Option Number
  pub at_amplifier : Option Number

abbrev pub at_slot : SlotValues → CampaignSlot → Option Number
at_slot v intent = v.at_intent
at_slot v method = v.at_method
at_slot v amplifier = v.at_amplifier

pub record AssignedCampaignComponent : Type 0 where
  pub slot : CampaignSlot
  pub influence_value_by_slot : SlotValues

abbrev pub slot_index : CampaignSlot → ℕ
slot_index intent = 0
slot_index method = 1
slot_index amplifier = 2

abbrev pub slot_beq : CampaignSlot → CampaignSlot → Bool
slot_beq a b = slot_index a == slot_index b

pub slot_beq_iff : (a b : CampaignSlot) → (slot_beq a b ≡ Bool.true) ↔ (a ≡ b)
slot_beq_iff a b = ground arith

instance abbrev pub slot_eq : Eq CampaignSlot
slot_eq = record { are_same = slot_beq; are_same_iff = slot_beq_iff }

abbrev pub alignment_index : CampaignAlignment → ℕ
alignment_index malign = 0
alignment_index resiliency = 1

abbrev pub alignment_beq : CampaignAlignment → CampaignAlignment → Bool
alignment_beq a b = alignment_index a == alignment_index b

pub alignment_beq_iff : (a b : CampaignAlignment) → (alignment_beq a b ≡ Bool.true) ↔ (a ≡ b)
alignment_beq_iff a b = ground arith

instance abbrev pub alignment_eq : Eq CampaignAlignment
alignment_eq = record { are_same = alignment_beq; are_same_iff = alignment_beq_iff }

-- The order of the tiers.
abbrev pub tier_index : CampaignTier → ℕ
tier_index low = 0
tier_index medium = 1
tier_index high = 2
