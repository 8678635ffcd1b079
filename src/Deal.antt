-- ===== src/Deal.antt =====
-- services/user-service/src/modules/deal/enums/deal.enum.ts and the part of entities/deal.entity.ts
-- that the state machine and the deal service read and write. Dates are milliseconds.
pub mod Machine
pub mod Entity
use telegram_garant_contract.Common.{ℕ, Option, Text, Bool, true, false}

pub data DealStatus : Type 0 where
  draft pending_acceptance pending_payment in_progress pending_confirmation completed cancelled
        refunded disputed dispute_resolved frozen :
      DealStatus

pub data DealEventType : Type 0 where
  deal_created counterparty_invited counterparty_accepted counterparty_rejected payment_received
        seller_started buyer_confirmed buyer_rejected dispute_opened dispute_resolved
        dispute_decided_seller dispute_decided_buyer deal_unfrozen deal_cancelled deal_refunded
        payment_expired auto_confirmed message_sent attachment_added :
      DealEventType

pub record Deal : Type 0 where
  pub id : Text
  pub status : DealStatus
  pub buyer_id : Text
  pub seller_id : Option Text
  pub arbitrator_id : Option Text
  pub accepted_at : Option ℕ
  pub paid_at : Option ℕ
  pub completed_at : Option ℕ
  pub cancelled_at : Option ℕ
  pub disputed_at : Option ℕ
  pub funded_at : Option ℕ
  pub updated_at : ℕ
  pub cancel_reason : Option Text
  pub refund_reason : Option Text

-- `===` on statuses.
unfoldable pub status_eq : DealStatus → DealStatus → Bool
status_eq draft draft = true
status_eq pending_acceptance pending_acceptance = true
status_eq pending_payment pending_payment = true
status_eq in_progress in_progress = true
status_eq pending_confirmation pending_confirmation = true
status_eq completed completed = true
status_eq cancelled cancelled = true
status_eq refunded refunded = true
status_eq disputed disputed = true
status_eq dispute_resolved dispute_resolved = true
status_eq frozen frozen = true
status_eq _ _ = false
