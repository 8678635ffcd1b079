-- ===== src/Outbox/Tries.antt =====
-- Claims of an outbox event and recorded failures of it, in any order
-- (services/user-service/src/modules/ops/outbox.service.ts).
use telegram_garant_contract.Common.{
  ℕ, suc, ◌+◌, Bool, true, false, ◌&&◌, List, [], ◌∷◌, Text, leb, if◌then◌else◌, ◌≡◌, refl, sym, ap,
  ◌∙◌, arith, inl, inr, Bool-cases,
}
use telegram_garant_contract.Outbox.{
  OutboxStatus, OutboxEvent, status_due, is_due, claimed_by, failed_row,
}

-- A claim by a worker at a time, or the record of a failure.
pub data Try : Type 0 where
  claims : Text → ℕ → Try
  fails : ℕ → Text → Try

-- A claim takes the event if it is due; a failure is recorded whatever the status is.
unfoldable pub after_try : Try → OutboxEvent → OutboxEvent
after_try (Try.claims worker now) e = if is_due now e then claimed_by worker now e else e
after_try (Try.fails now message) e = failed_row now message e

unfoldable pub after_tries : List Try → OutboxEvent → OutboxEvent
after_tries [] e = e
after_tries (t ∷ ts) e = after_tries ts (after_try t e)

abbrev pub failures : List Try → ℕ
failures [] = 0
failures (Try.claims worker now ∷ ts) = failures ts
failures (Try.fails now message ∷ ts) = suc (failures ts)

abbrev pub is_dead : OutboxStatus → Bool
is_dead OutboxStatus.dead = true
is_dead _ = false

-- The event is dead exactly if it has six attempts.
abbrev pub IsCounted : OutboxEvent → Type 0
IsCounted e = is_dead e.status ≡ leb 6 e.attempts

is_due-alive : (now : ℕ) (e : OutboxEvent) → is_due now e ≡ true → is_dead e.status ≡ false
is_due-alive now e h = pick e.status refl h
  where
    pick :
        (s : OutboxStatus)
        → e.status ≡ s
        → (status_due now e s && leb e.available_at now) ≡ true
        → is_dead s ≡ false
    pick OutboxStatus.dead q k = cc
    pick OutboxStatus.pending q k = refl
    pick OutboxStatus.in_flight q k = refl
    pick OutboxStatus.delivered q k = refl
    pick OutboxStatus.failed q k = refl

claimed-attempts :
    (worker : Text) (now : ℕ) (e : OutboxEvent)
    → (after_try (Try.claims worker now) e).attempts ≡ e.attempts
unfolding after_try
claimed-attempts worker now e = elim (Bool-cases (is_due now e)) [
  | inl due ↦ rw due refl
  | inr other ↦ rw other refl
]

claimed-IsCounted :
    (worker : Text) (now : ℕ) (e : OutboxEvent)
    → IsCounted e
    → IsCounted (after_try (Try.claims worker now) e)
unfolding after_try
claimed-IsCounted worker now e h = elim (Bool-cases (is_due now e)) [
  | inl due ↦ rw due (sym (is_due-alive now e due) ∙ h)
  | inr other ↦ rw other h
]

failed-attempts :
    (now : ℕ) (message : Text) (e : OutboxEvent)
    → (after_try (Try.fails now message) e).attempts ≡ e.attempts + 1
unfolding after_try failed_row
failed-attempts now message e = elim (Bool-cases (leb 6 (e.attempts + 1))) [
  | inl last ↦ rw last refl
  | inr more ↦ rw more refl
]

failed-IsCounted :
    (now : ℕ) (message : Text) (e : OutboxEvent) → IsCounted (after_try (Try.fails now message) e)
unfolding after_try failed_row
failed-IsCounted now message e = elim (Bool-cases (leb 6 (e.attempts + 1))) [
  | inl last ↦ rw last (sym last)
  | inr more ↦ rw more (sym more)
]

-- From an event that is dead exactly if it has six attempts, whatever claims, also of events under an
-- expired lease, and recorded failures follow: its attempts grow by the number of the failures, claims do not
-- count, and it is dead exactly if the sum is six or more.
pub after_tries_lem :
    (ts : List Try) (e : OutboxEvent)
    → IsCounted e
    → ((after_tries ts e).attempts ≡ e.attempts + failures ts)
      × (is_dead (after_tries ts e).status ≡ leb 6 (e.attempts + failures ts))
unfolding after_tries
after_tries_lem [] e h =
    let same : e.attempts ≡ e.attempts + 0 = omega arith in (same, h ∙ ap (leb 6) same)
after_tries_lem (Try.claims worker now ∷ ts) e h =
    let (n, d) =
      after_tries_lem ts (after_try (Try.claims worker now) e) (claimed-IsCounted worker now e h) in
    let same = ap (λ m. m + failures ts) (claimed-attempts worker now e) in
    (n ∙ same, d ∙ ap (leb 6) same)
after_tries_lem (Try.fails now message ∷ ts) e h =
    let (n, d) =
      after_tries_lem ts (after_try (Try.fails now message) e) (failed-IsCounted now message e) in
    let same : (after_try (Try.fails now message) e).attempts + failures ts
        ≡ e.attempts + suc (failures ts) =
      omega (arith, failed-attempts now message e) in
    (n ∙ same, d ∙ ap (leb 6) same)
