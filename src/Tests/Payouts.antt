-- ===== src/Tests/Payouts.antt =====
-- Tests of the payout plans, and the theorems about them at a concrete settlement.
use telegram_garant_contract.Common.{
  false, Option, none, some, List, [], ◌∷◌, ◌≡◌, refl, inl, Text, codes, ok, is_ok, text_eq, trim,
  All,
}
use telegram_garant_contract.Decimal.{value, to_text, is_canonical, value_from}
use telegram_garant_contract.Address.{
  normalize_ton_address, normalize_trimmed, match_raw, hash_part,
}
use telegram_garant_contract.Money.{span_digits}
use telegram_garant_contract.Payout.{
  PayoutKind, PlanStatus, AttemptStatus, ObservationType, Attempt, Leg, Plan, Observation, kind_eq,
  is_settlement_id, is_transaction_id, non_negative_atomic, positive_atomic, uint64, payout_order,
  attempt_key, derive_status, require_leg, write_leg, write_last,
}
use telegram_garant_contract.Payout.Create.{collect_legs, insert_leg, sort_legs, create_payout_plan}
use telegram_garant_contract.Payout.Validate.{
  evidence_fits, attempt_fits, check_attempts, check_legs, sum_legs, plan_status_eq,
  validated_clone,
}
use telegram_garant_contract.Payout.Advance.{
  add_attempt, prepare_attempt, observe_attempt, apply_observation,
}
use telegram_garant_contract.Payout.Completed.{IsPaid, validated_clone-completed}
use telegram_garant_contract.Payout.Laws.{
  prepare_attempt_valid, apply_observation_valid, apply_observation_twice, prepare_attempt_blocked,
}

abbrev address : Text
address = codes "0:1111111111111111111111111111111111111111111111111111111111111111"

abbrev settlement : Text
settlement = codes "deal-7"

abbrev paid_leg : List Attempt → Leg
paid_leg attempts = record {
  kind = PayoutKind.seller;
  destination = address;
  amount_atomic = codes "995";
  attempts = attempts;
}

abbrev fee_leg : Leg
fee_leg = record {
  kind = PayoutKind.treasury;
  destination = address;
  amount_atomic = codes "5";
  attempts = [];
}

abbrev plan_of : PlanStatus → List Leg → Plan
plan_of status legs = record {
  schema_version = 1;
  settlement_id = settlement;
  expected_total_atomic = codes "1000";
  status = status;
  legs = legs;
}

abbrev first_attempt : AttemptStatus → Option Text → Option Text → Attempt
first_attempt status submission final = record {
  attempt = 1;
  idempotency_key = codes "deal-7:seller:1";
  query_id = codes "77";
  status = status;
  submission_transaction_id = submission;
  final_transaction_id = final;
}

abbrev created : Plan
created = plan_of PlanStatus.pending (paid_leg [] ∷ fee_leg ∷ [])

abbrev prepared : Plan
prepared =
    plan_of PlanStatus.in_progress
      (paid_leg (first_attempt AttemptStatus.prepared none none ∷ []) ∷ fee_leg ∷ [])

abbrev sent : Attempt
sent = first_attempt AttemptStatus.submitted (some (codes "tx1")) none

abbrev submitted : Plan
submitted = plan_of PlanStatus.in_progress (paid_leg (sent ∷ []) ∷ fee_leg ∷ [])

abbrev seen_submitted : Observation
seen_submitted = record {
  kind = PayoutKind.seller;
  attempt = 1;
  query_id = codes "77";
  destination = address;
  amount_atomic = codes "995";
  type = ObservationType.was_submitted;
  transaction_id = codes "tx1";
}

-- The legs come in any order, and those of amount zero are dropped.
create_test :
    create_payout_plan settlement (codes "1000") (
      record { kind = PayoutKind.treasury; destination = address; amount_atomic = codes "5" }
      ∷ record { kind = PayoutKind.buyer; destination = address; amount_atomic = codes "0" }
      ∷ record { kind = PayoutKind.seller; destination = address; amount_atomic = codes "995" }
      ∷ [])
    ≡ ok created
unfolding kind_eq is_settlement_id non_negative_atomic positive_atomic payout_order collect_legs
    insert_leg sort_legs create_payout_plan normalize_ton_address normalize_trimmed match_raw
    hash_part span_digits trim value to_text is_canonical value_from
create_test = refl

prepare_test : prepare_attempt created PayoutKind.seller (codes "77") ≡ ok prepared
unfolding kind_eq is_settlement_id is_transaction_id non_negative_atomic positive_atomic uint64
    attempt_key derive_status require_leg write_leg evidence_fits attempt_fits check_attempts
    check_legs sum_legs plan_status_eq validated_clone add_attempt prepare_attempt
    normalize_ton_address normalize_trimmed match_raw hash_part span_digits trim value to_text
    is_canonical value_from text_eq
prepare_test = refl

submit_test : apply_observation prepared seen_submitted ≡ ok submitted
unfolding kind_eq is_settlement_id is_transaction_id non_negative_atomic positive_atomic uint64
    attempt_key derive_status require_leg write_leg write_last evidence_fits attempt_fits
    check_attempts check_legs sum_legs plan_status_eq validated_clone observe_attempt
    apply_observation normalize_ton_address normalize_trimmed match_raw hash_part span_digits trim
    value to_text is_canonical value_from text_eq
submit_test = refl

found_test : require_leg submitted.legs PayoutKind.seller ≡ ok (paid_leg (sent ∷ []))
unfolding kind_eq require_leg
found_test = refl

prepare_attempt_valid_example : validated_clone prepared ≡ ok prepared
prepare_attempt_valid_example =
    prepare_attempt_valid created PayoutKind.seller (codes "77") prepared prepare_test

apply_observation_valid_example : validated_clone submitted ≡ ok submitted
apply_observation_valid_example =
    apply_observation_valid prepared seen_submitted submitted submit_test

apply_observation_twice_example : apply_observation submitted seen_submitted ≡ ok submitted
apply_observation_twice_example =
    apply_observation_twice prepared seen_submitted submitted submit_test

prepare_attempt_blocked_example :
    is_ok (prepare_attempt submitted PayoutKind.seller (codes "78")) ≡ false
prepare_attempt_blocked_example =
    prepare_attempt_blocked submitted PayoutKind.seller (codes "78") (paid_leg (sent ∷ [])) sent
      (apply_observation_valid prepared seen_submitted submitted submit_test) found_test refl
      (inl refl)

abbrev done : Plan
done = record {
  schema_version = 1;
  settlement_id = settlement;
  expected_total_atomic = codes "995";
  status = PlanStatus.completed;
  legs =
      paid_leg
        (first_attempt AttemptStatus.confirmed (some (codes "tx1")) (some (codes "tx2")) ∷ [])
      ∷ [];
}

done_test : validated_clone done ≡ ok done
unfolding kind_eq is_settlement_id is_transaction_id non_negative_atomic positive_atomic uint64
    attempt_key derive_status evidence_fits attempt_fits check_attempts check_legs sum_legs
    plan_status_eq validated_clone normalize_ton_address normalize_trimmed match_raw hash_part
    span_digits trim value to_text is_canonical value_from text_eq
done_test = refl

validated_clone-completed_example : All IsPaid done.legs
validated_clone-completed_example = validated_clone-completed done done done_test refl
