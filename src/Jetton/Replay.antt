-- ===== src/Jetton/Replay.antt =====
-- `createLocked` of services/user-service/src/modules/deal/ton-jetton-action-intent.service.ts when it is
-- called again.
use telegram_garant_contract.Common.{
  ℕ, Bool, true, false, not, ◌&&◌, List, [], ◌∷◌, ◌++◌, append-nil, Text, Option, none, some, ◌==◌,
  if◌then◌else◌, text_eq, text_eq_refl, ok, >>=-eq-ok, throw_if-eq-ok, ok-injective, not-false, ◌≡◌,
  refl, sym, ap, ◌∙◌, subst, arith,
}
use telegram_garant_contract.Breaker.{Tables}
use telegram_garant_contract.Jetton.{
  TonJettonEscrowWatchStatus, watch_rank, TonJettonEscrowPreparation, TonJettonActionIntent,
  TonJettonEscrowWatch,
}
use telegram_garant_contract.Jetton.Postings.{is_option_text}
use telegram_garant_contract.Jetton.Intents.{
  TonJettonActionIntentInput, ParsedActionBody, IntentError, assert_action_allowed, moves_funds,
  check_egress, opcode, find_intent, same_intent, candidate, IntentResult, create_found,
  create_locked,
}

is_option_text_refl : (o : Option Text) → is_option_text o o ≡ true
is_option_text_refl none = refl
is_option_text_refl (some t) = text_eq_refl t

same_number : (n : ℕ) → (n == n) ≡ true
same_number n = ground arith

-- The candidate of a second call is that of the first, but for its id.
same_intent-candidate :
    (x y : Text) (i : TonJettonActionIntentInput) (b : ParsedActionBody)
    (p : TonJettonEscrowPreparation) (w : TonJettonEscrowWatch) (to : TonJettonEscrowWatchStatus)
    → same_intent (candidate x i b p w to) (candidate y i b p w to) ≡ true
unfolding same_intent
same_intent-candidate x y i b p w to =
    rw
      (
        text_eq_refl p.id,
        text_eq_refl p.deal_id,
        same_number (opcode i.action),
        same_number (watch_rank w.status),
        same_number (watch_rank to),
        text_eq_refl i.requester_id,
        text_eq_refl i.sender_address,
        text_eq_refl b.query_id,
        text_eq_refl i.payload,
        text_eq_refl b.payload_hash,
        is_option_text_refl b.settlement_id,
        is_option_text_refl b.buyer_award_atomic,
        is_option_text_refl b.seller_award_atomic,
      )
      refl

any_id :
    (e : TonJettonActionIntent) (x y : Text) (i : TonJettonActionIntentInput) (b : ParsedActionBody)
    (p : TonJettonEscrowPreparation) (w : TonJettonEscrowWatch) (to : TonJettonEscrowWatchStatus)
    → same_intent e (candidate x i b p w to) ≡ true
    → same_intent e (candidate y i b p w to) ≡ true
unfolding same_intent
any_id e x y i b p w to h = h

find_intent-append :
    (new : TonJettonActionIntent) (intents : List TonJettonActionIntent)
    → find_intent new.preparation_id new.query_id intents ≡ none
    → find_intent new.preparation_id new.query_id (intents ++ (new ∷ [])) ≡ some new
unfolding find_intent
find_intent-append new [] h = rw (text_eq_refl new.preparation_id, text_eq_refl new.query_id) refl
find_intent-append new (i ∷ intents) h =
    pick (text_eq i.preparation_id new.preparation_id && text_eq i.query_id new.query_id)
      (find_intent-append new intents) h
  where
    pick :
        (c : Bool)
        → (find_intent new.preparation_id new.query_id intents ≡ none
            → find_intent new.preparation_id new.query_id (intents ++ (new ∷ [])) ≡ some new)
        → (if c then some i else find_intent new.preparation_id new.query_id intents) ≡ none
        → (if c
            then some i
            else find_intent new.preparation_id new.query_id (intents ++ (new ∷ [])))
          ≡ some new
    pick true ih k = cc
    pick false ih k = ih k

-- The intent that a call returns.
abbrev pub intent_of : IntentResult → TonJettonActionIntent
intent_of (IntentResult.created i) = i
intent_of (IntentResult.replayed i) = i

-- The intents grew behind, and a call with the same input finds the intent `e` and returns it.
abbrev IsReplayed :
    Text
    → TonJettonActionIntentInput
    → ParsedActionBody
    → TonJettonEscrowPreparation
    → TonJettonEscrowWatch
    → TonJettonEscrowWatchStatus
    → List TonJettonActionIntent
    → List TonJettonActionIntent
    → TonJettonActionIntent
    → Type 0
IsReplayed id i b p w to intents after e =
    ((more : List TonJettonActionIntent) × (after ≡ intents ++ more))
    × (find_intent p.id b.query_id after ≡ some e)
    × (create_found (candidate id i b p w to) after (find_intent p.id b.query_id after)
        ≡ ok (IntentResult.replayed e, after))

create_found-IsReplayed :
    (id : Text) (i : TonJettonActionIntentInput) (b : ParsedActionBody)
    (p : TonJettonEscrowPreparation) (w : TonJettonEscrowWatch) (to : TonJettonEscrowWatchStatus)
    (intents after : List TonJettonActionIntent) (x : Text) (r : IntentResult)
    (o : Option TonJettonActionIntent)
    → find_intent p.id b.query_id intents ≡ o
    → create_found (candidate x i b p w to) intents o ≡ ok (r, after)
    → IsReplayed id i b p w to intents after (intent_of r)
create_found-IsReplayed id i b p w to intents after x r none q h =
    let new = candidate x i b p w to in
    let same : intents ++ (new ∷ []) ≡ after =
      ap (λ (y : IntentResult × List TonJettonActionIntent). y.1) (ok-injective h) in
    let found : find_intent p.id b.query_id after ≡ some new =
      subst (λ z. find_intent p.id b.query_id z ≡ some new) same
        (find_intent-append new intents q) in
    let made : new ≡ intent_of r =
      ap (λ (y : IntentResult × List TonJettonActionIntent). intent_of y.0) (ok-injective h) in
    subst (IsReplayed id i b p w to intents after) made
      ((new ∷ [], sym same), found, rw (found, same_intent-candidate x id i b p w to) refl)
create_found-IsReplayed id i b p w to intents after x r (some e) q h =
    let (s, k) =
      throw_if-eq-ok (not (same_intent e (candidate x i b p w to))) IntentError.query_id_conflict
        (ok (IntentResult.replayed e, intents)) {b = (r, after)} h in
    let same : intents ≡ after =
      ap (λ (y : IntentResult × List TonJettonActionIntent). y.1) (ok-injective k) in
    let found : find_intent p.id b.query_id after ≡ some e =
      subst (λ z. find_intent p.id b.query_id z ≡ some e) same q in
    let made : e ≡ intent_of r =
      ap (λ (y : IntentResult × List TonJettonActionIntent). intent_of y.0) (ok-injective k) in
    subst (IsReplayed id i b p w to intents after) made (
      ([], sym same ∙ sym (append-nil intents)),
      found,
      rw (found, any_id e x id i b p w to (not-false _ s)) refl,
    )

-- A call that succeeds keeps the intents that are there and adds at most behind them, and the intent that
-- it returns is then the one of its preparation and query id; called again, with whatever id the database
-- would give, it returns that intent and adds nothing.
pub create_locked-replayed :
    (id id_again : Text) (t : Tables) (i : TonJettonActionIntentInput) (b : ParsedActionBody)
    (p : TonJettonEscrowPreparation) (w : TonJettonEscrowWatch)
    (intents after : List TonJettonActionIntent) (r : IntentResult)
    → create_locked id t i b p w intents ≡ ok (r, after)
    → ((more : List TonJettonActionIntent) × (after ≡ intents ++ more))
      × (find_intent p.id b.query_id after ≡ some (intent_of r))
      × (create_locked id_again t i b p w after ≡ ok (IntentResult.replayed (intent_of r), after))
unfolding create_locked
create_locked-replayed id id_again t i b p w intents after r h =
    let (to, ha, h₁) = >>=-eq-ok (assert_action_allowed i b p w) _ {b = (r, after)} h in
    let (u, hc, h₂) = >>=-eq-ok (check_egress (moves_funds i.action) t) _ {b = (r, after)} h₁ in
    let (grown, found, k) =
      create_found-IsReplayed id_again i b p w to intents after id r
        (find_intent p.id b.query_id intents) refl h₂ in
    (grown, found, rw (ha, hc) k)
