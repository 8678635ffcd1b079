-- ===== src/Settlement/Laws.antt =====
-- What the settlement policies let through
-- (services/user-service/src/modules/deal/settlement-policy.ts,
-- services/user-service/src/modules/payment/settlement-payment-policy.ts).
use telegram_garant_contract.Common.{
  ℕ, ◌≤◌, Bool, true, false, not, ◌&&◌, ◌||◌, [], ◌∷◌, Text, Option, none, some, ltb, ◌==◌, length,
  is_some, trim, ok, throw_if, or_throw, is_ok, >>=-eq-ok, throw_if-eq-ok, or_throw-eq-ok,
  ok-injective, ◌≡◌, ◌↔◌, ◌⊎◌, inl, inr, refl, subst, arith,
}
use telegram_garant_contract.Deal.{Deal, DealStatus}
use telegram_garant_contract.Settlement.{
  SettlementNetwork, SettlementAsset, SettlementMode, ClientChannel, PaymentMethod,
  SettlementSelection, RawSelection, SettlementError, network_eq, asset_eq, mode_eq, is_mini_app,
  supports, non_empty, validate_present, validate_settlement_selection, is_before_payment,
  assert_settlement_can_change, PaymentRouteProfile, payment_route_profile, matches,
  assert_typed_terms, assert_payment_method_matches_deal,
}

-- What a selection is that was validated for a channel.
pub record IsSupported (channel : ClientChannel) (raw : RawSelection) (s : SettlementSelection)
    : Type 0 where
  pub network : raw.network ≡ some s.network
  pub asset : raw.asset ≡ some s.asset
  pub chain : (t : Text) × (raw.chain_id ≡ some t) × (s.chain_id ≡ trim t)
  pub supported : supports s.network s.asset ≡ true
  pub non_empty_chain : 1 ≤ length s.chain_id
  pub short_chain : length s.chain_id ≤ 64
  pub reachable : channel ≡ ClientChannel.telegram_mini_app → s.network ≡ SettlementNetwork.ton

non_empty-eq-some : (o : Option Text) (t : Text) → non_empty o ≡ some t → o ≡ some t
non_empty-eq-some none t h = cc
non_empty-eq-some (some []) t h = cc
non_empty-eq-some (some (c ∷ s)) t h = h

only_ton :
    (channel : ClientChannel) (n : SettlementNetwork)
    → (is_mini_app channel && not (network_eq n SettlementNetwork.ton)) ≡ false
    → channel ≡ ClientChannel.telegram_mini_app
    → n ≡ SettlementNetwork.ton
unfolding network_eq
only_ton channel n h e = ground arith

-- Where a selection is validated, it is the client's with the chain id trimmed; the asset belongs to the
-- network, the chain id has 1 to 64 code units, and from the Telegram Mini App the network is TON.
pub validate_settlement_selection-IsSupported :
    (raw : RawSelection) (channel : ClientChannel) (s : SettlementSelection)
    → validate_settlement_selection (some raw) channel ≡ ok s
    → IsSupported channel raw s
unfolding validate_settlement_selection validate_present
validate_settlement_selection-IsSupported raw channel s h =
    let (n, hn, h₁) =
      >>=-eq-ok (or_throw raw.network SettlementError.settlement_required) _ {b = s} h in
    let (t, ht, h₂) =
      >>=-eq-ok (or_throw (non_empty raw.chain_id) SettlementError.settlement_required) _ {b = s}
        h₁ in
    let (a, ha, h₃) =
      >>=-eq-ok (or_throw raw.asset SettlementError.settlement_required) _ {b = s} h₂ in
    let (c₁, h₄) =
      throw_if-eq-ok (is_mini_app channel && not (network_eq n SettlementNetwork.ton))
        SettlementError.polygon_not_in_mini_app _ {b = s} h₃ in
    let (c₂, h₅) =
      throw_if-eq-ok (not (supports n a)) SettlementError.asset_not_supported _ {b = s} h₄ in
    let (c₃, h₆) =
      throw_if-eq-ok (length (trim t) == 0 || ltb 64 (length (trim t)))
        SettlementError.invalid_chain_id _ {b = s} h₅ in
    subst (IsSupported channel raw) (ok-injective h₆) (record {
      network = or_throw-eq-ok raw.network SettlementError.settlement_required hn;
      asset = or_throw-eq-ok raw.asset SettlementError.settlement_required ha;
      chain = (
        t,
        non_empty-eq-some raw.chain_id t
            (or_throw-eq-ok (non_empty raw.chain_id) SettlementError.settlement_required ht),
        refl,
      );
      supported = ground arith;
      non_empty_chain = (lengths (length (trim t)) c₃).0;
      short_chain = (lengths (length (trim t)) c₃).1;
      reachable = only_ton channel n c₁;
    })
  where
    lengths : (n : ℕ) → (n == 0 || ltb 64 n) ≡ false → (1 ≤ n) × (n ≤ 64)
    lengths n h = ground arith

-- A deal's settlement can be changed exactly while it is neither paid nor funded and its status is draft
-- or pending acceptance.
pub assert_settlement_can_change_lem :
    (d : Deal)
    → (assert_settlement_can_change d ≡ ok tt) ↔ (
        (d.paid_at ≡ none)
        × (d.funded_at ≡ none)
        × ((d.status ≡ DealStatus.draft) ⊎ (d.status ≡ DealStatus.pending_acceptance)))
unfolding assert_settlement_can_change
assert_settlement_can_change_lem d = (
  λ h.
      let t = (throw_if-ok _ h) in
      (
        absent d.paid_at (ground arith),
        absent d.funded_at (ground arith),
        before d.status (ground arith),
      ),
  λ (p, f, s). rw (p, f) (early d.status s),
)
  where
    throw_if-ok :
        (b : Bool) → throw_if b SettlementError.settlement_cannot_change ≡ ok tt → b ≡ false
    throw_if-ok b h = ground arith

    absent : (o : Option ℕ) → is_some o ≡ false → o ≡ none
    absent none h = refl
    absent (some n) h = cc

    before :
        (s : DealStatus)
        → is_before_payment s ≡ true
        → (s ≡ DealStatus.draft) ⊎ (s ≡ DealStatus.pending_acceptance)
    before s h = ground arith

    early :
        (s : DealStatus)
        → (s ≡ DealStatus.draft) ⊎ (s ≡ DealStatus.pending_acceptance)
        → throw_if (not (is_before_payment s)) SettlementError.settlement_cannot_change ≡ ok tt
    early s (inl e) = rw e refl
    early s (inr e) = rw e refl

matches-eq :
    (p : PaymentRouteProfile) (network : SettlementNetwork) (asset : SettlementAsset)
    (mode : SettlementMode)
    → matches p network asset mode ≡ true
    → (p.settlement_network ≡ network) × (p.settlement_asset ≡ asset) × (p.settlement_mode ≡ mode)
unfolding network_eq asset_eq mode_eq
matches-eq p network asset mode h = (ground arith, ground arith, ground arith)

matches_self :
    (p : PaymentRouteProfile) (network : SettlementNetwork) (asset : SettlementAsset)
    (mode : SettlementMode)
    → p.settlement_network ≡ network
    → p.settlement_asset ≡ asset
    → p.settlement_mode ≡ mode
    → matches p network asset mode ≡ true
unfolding network_eq asset_eq mode_eq
matches_self p network asset mode n a m = ground arith

-- A payment method is accepted for a deal with all three terms exactly if it has a route profile and the
-- profile's network, asset and mode are the deal's.
pub assert_payment_method_matches_deal_lem :
    (network : SettlementNetwork) (asset : SettlementAsset) (mode : SettlementMode)
    (method : PaymentMethod)
    → (assert_payment_method_matches_deal
          (record {
            settlement_network = some network;
            settlement_asset = some asset;
            settlement_mode = some mode;
          })
          method
        ≡ ok tt)
      ↔ ((p : PaymentRouteProfile) × (payment_route_profile method ≡ some p)
          × (p.settlement_network ≡ network)
          × (p.settlement_asset ≡ asset)
          × (p.settlement_mode ≡ mode))
unfolding assert_payment_method_matches_deal assert_typed_terms network_eq asset_eq mode_eq
assert_payment_method_matches_deal_lem network asset mode method = (
  λ h.
      let (p, hp, h₁) =
        >>=-eq-ok (or_throw (payment_route_profile method) SettlementError.method_not_configured) _
          {b = tt} h in
      let (a, h₂) =
        throw_if-eq-ok
          (not (matches p network asset mode)
            && (network_eq network SettlementNetwork.ton && mode_eq mode SettlementMode.native))
          SettlementError.native_ton_not_enabled _ {b = tt} h₁ in
      let (n, e, m) = matches-eq p network asset mode (matched _ h₂) in
      (
        p,
        or_throw-eq-ok (payment_route_profile method) SettlementError.method_not_configured hp,
        n,
        e,
        m,
      ),
  λ (p, e, n, a, m). rw e (rw (matches_self p network asset mode n a m) refl),
)
  where
    matched : (b : Bool) → throw_if (not b) SettlementError.method_does_not_match ≡ ok tt → b ≡ true
    matched b h = ground arith

-- No payment method is accepted for a deal that settles natively on TON.
pub native_ton_unfundable :
    (asset : SettlementAsset) (method : PaymentMethod)
    → is_ok (
        assert_payment_method_matches_deal
          (record {
            settlement_network = some SettlementNetwork.ton;
            settlement_asset = some asset;
            settlement_mode = some SettlementMode.native;
          })
          method)
      ≡ false
unfolding assert_payment_method_matches_deal assert_typed_terms payment_route_profile network_eq
    asset_eq mode_eq
native_ton_unfundable asset method = ground arith
