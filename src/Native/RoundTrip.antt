-- ===== src/Native/RoundTrip.antt =====
-- Building and parsing a lifecycle payload
-- (services/user-service/src/modules/deal/ton-native-lifecycle.ts).
use telegram_garant_contract.Common.{
  some-injective, ℕ, ◌^◌, ◌<◌, ◌≤◌, Bool, true, false, ◌||◌, List, [], ◌∷◌, ◌++◌, Text, Option,
  none, some, ltb, leb, ◌==◌, if◌then◌else◌, all, ok, err, or_throw, ◌>>=◌, ◌≡◌, refl, sym, ap, ◌∙◌,
  subst, arith, >>=-eq-ok, throw_if-eq-ok, or_throw-eq-ok, ok-injective,
}
use telegram_garant_contract.Native.{
  TonNativeLifecycleAction, all_actions, lifecycle_opcode, is_resolve,
}
use telegram_garant_contract.Native.Cells.{Cells, CellLaws, Field, fits, field_bits}
use telegram_garant_contract.Native.Payload.{
  PayloadError, Awards, head_fields, payload_fields, build_payload, find_action, single_root,
  load_awards, parse_cell, parse_payload,
}

-- The awards fit the contract's coins.
abbrev pub AwardsFit : Option Awards → Type 0
AwardsFit none = Unit
AwardsFit (some w) = (w.buyer_award < 2 ^ 120) × (w.seller_award < 2 ^ 120)

lt→ltb : (a b : ℕ) → a < b → ltb a b ≡ true
lt→ltb a b h = ground arith

pub find_action-opcode :
    (a : TonNativeLifecycleAction) → find_action (lifecycle_opcode a) all_actions ≡ some a
unfolding find_action
find_action-opcode TonNativeLifecycleAction.mark_delivered = refl
find_action-opcode _ = refl

opcode_fits : (a : TonNativeLifecycleAction) → ltb (lifecycle_opcode a) (2 ^ 32) ≡ true
opcode_fits TonNativeLifecycleAction.mark_delivered = refl
opcode_fits _ = refl

fields-plain :
    (a : TonNativeLifecycleAction) (q : ℕ) (fs : List Field)
    → payload_fields a q none ≡ ok fs
    → (is_resolve a ≡ false) × (fs ≡ head_fields a q)
unfolding payload_fields
fields-plain a q fs h = pick (is_resolve a) h
  where
    pick :
        (b : Bool)
        → (if b then err PayloadError.awards_invalid else ok (head_fields a q)) ≡ ok fs
        → (b ≡ false) × (fs ≡ head_fields a q)
    pick true h = cc
    pick false h = (refl, sym (ok-injective h))

fields-awards :
    (a : TonNativeLifecycleAction) (q : ℕ) (w : Awards) (fs : List Field)
    → payload_fields a q (some w) ≡ ok fs
    → (is_resolve a ≡ true)
      × (fs ≡ head_fields a q ++ (Field.coins w.buyer_award ∷ Field.coins w.seller_award ∷ []))
unfolding payload_fields
fields-awards a q w fs h = pick (is_resolve a) h
  where
    full : List Field
    full = head_fields a q ++ (Field.coins w.buyer_award ∷ Field.coins w.seller_award ∷ [])

    pick :
        (b : Bool)
        → (if b then ok full else err PayloadError.awards_unexpected) ≡ ok fs
        → (b ≡ true) × (fs ≡ full)
    pick true h = (refl, sym (ok-injective h))
    pick false h = cc

fields-fit :
    (a : TonNativeLifecycleAction) (q : ℕ) (awards : Option Awards) (fs : List Field)
    → q < 2 ^ 64
    → AwardsFit awards
    → payload_fields a q awards ≡ ok fs
    → (all fits fs ≡ true) × (field_bits fs ≤ 1023)
unfolding field_bits
fields-fit a q none fs h f e =
    subst (λ x. (all fits x ≡ true) × (field_bits x ≤ 1023)) (sym (fields-plain a q fs e).1)
      (rw (opcode_fits a, lt→ltb q (2 ^ 64) h) refl, omega arith)
fields-fit a q (some w) fs h (f, g) e =
    subst (λ x. (all fits x ≡ true) × (field_bits x ≤ 1023)) (sym (fields-awards a q w fs e).1)
      (
        rw
            (
              opcode_fits a,
              lt→ltb q (2 ^ 64) h,
              lt→ltb w.buyer_award (2 ^ 120) f,
              lt→ltb w.seller_award (2 ^ 120) g,
            )
            refl,
        omega arith,
      )

-- The fields behind the first ones fit where all of them do.
abbrev Fit : List Field → Type 0
Fit fs = (all fits fs ≡ true) × (field_bits fs ≤ 1023)

Fit-tail : (f : Field) (fs : List Field) → Fit (f ∷ fs) → Fit fs
unfolding field_bits
Fit-tail (Field.uint w v) fs (h, k) = (ground arith, omega arith)
Fit-tail (Field.coins v) fs (h, k) = (ground arith, omega arith)

module _ (c : Cells) (laws : CellLaws c) where
  parse-head :
      (a : TonNativeLifecycleAction) (q : ℕ) (fs : List Field) (cell : c.Cell)
      (awards : Option Awards)
      → Fit (head_fields a q ++ fs)
      → c.begin_parse cell ≡ laws.slice_of (head_fields a q ++ fs)
      → load_awards c a (laws.slice_of fs) ≡ ok (awards, laws.slice_of [])
      → parse_cell c cell
        ≡ ok (record { action = a; query_id = q; awards = awards; hash = c.hash cell })
  unfolding parse_cell
  parse-head a q fs cell awards fit b l =
      let rest = Fit-tail (Field.uint 32 (lifecycle_opcode a)) (Field.uint 64 q ∷ fs) fit in
      rw
        (
          b,
          laws.uint_read 32 (lifecycle_opcode a) (Field.uint 64 q ∷ fs) fit.0 fit.1,
          laws.uint_read 64 q fs rest.0 rest.1,
          find_action-opcode a,
          l,
          laws.no_bits,
          laws.no_refs [],
        )
        refl

  parse-built :
      (a : TonNativeLifecycleAction) (q : ℕ) (awards : Option Awards) (fs : List Field)
      (cell : c.Cell)
      → payload_fields a q awards ≡ ok fs
      → Fit fs
      → c.begin_parse cell ≡ laws.slice_of fs
      → parse_cell c cell
        ≡ ok (record { action = a; query_id = q; awards = awards; hash = c.hash cell })
  unfolding load_awards
  parse-built a q none fs cell h fit b =
      let (r, e) = fields-plain a q fs h in
      parse-head a q [] cell none (subst Fit e fit) (b ∙ ap laws.slice_of e) (rw r refl)
  parse-built a q (some w) fs cell h fit b =
      let (r, e) = fields-awards a q w fs h in
      let all_fit = subst Fit e fit in
      let awards_fit =
        Fit-tail (Field.uint 64 q) (Field.coins w.buyer_award ∷ Field.coins w.seller_award ∷ [])
          (Fit-tail (Field.uint 32 (lifecycle_opcode a)) _ all_fit) in
      let last =
        Fit-tail (Field.coins w.buyer_award) (Field.coins w.seller_award ∷ []) awards_fit in
      parse-head a q (Field.coins w.buyer_award ∷ Field.coins w.seller_award ∷ []) cell (some w)
        all_fit (b ∙ ap laws.slice_of e)
        (rw
          (
            r,
            laws.coins_read w.buyer_award (Field.coins w.seller_award ∷ []) awards_fit.0
                awards_fit.1,
            laws.coins_read w.seller_award [] last.0 last.1,
          )
          refl)

  -- A payload that was built is parsed as the action, query id and awards that it was built from, if the
  -- awards have at most 120 bits.
  pub parse_payload-build_payload :
      (a : TonNativeLifecycleAction) (q : ℕ) (awards : Option Awards) (t : Text)
      → AwardsFit awards
      → build_payload c a q awards ≡ ok t
      → (hash : Text) × (parse_payload c t
          ≡ ok (record { action = a; query_id = q; awards = awards; hash = hash }))
  unfolding build_payload parse_payload
  parse_payload-build_payload a q awards t fit h =
      let (r, h₁) =
        throw_if-eq-ok (q == 0 || leb (2 ^ 64) q) PayloadError.query_id_out_of_range _ {b = t} h in
      let (fs, f, h₂) = >>=-eq-ok (payload_fields a q awards) _ {b = t} h₁ in
      let (cell, e, h₃) =
        >>=-eq-ok (or_throw (c.end_cell fs) PayloadError.builder_overflow) _ {b = t} h₂ in
      let (g, k) = fields-fit a q awards fs (below q r) fit f in
      let (built, eb, p) = laws.built fs g k in
      let same : built ≡ cell =
        some-injective (sym eb ∙ or_throw-eq-ok (c.end_cell fs) PayloadError.builder_overflow e) in
      let parsed =
        subst
          (λ x.
            parse_cell c x
            ≡ ok (record { action = a; query_id = q; awards = awards; hash = c.hash x }))
          same (parse-built a q awards fs built f (g, k) p) in
      (
        c.hash cell,
        subst
            (λ x.
              (or_throw (single_root (c.from_boc x)) PayloadError.not_a_boc >>= parse_cell c)
              ≡ ok (record { action = a; query_id = q; awards = awards; hash = c.hash cell }))
            (ok-injective h₃) (rw (laws.bag cell) parsed),
      )
    where
      below : (q : ℕ) → (q == 0 || leb (2 ^ 64) q) ≡ false → q < 2 ^ 64
      below q h = ground arith
