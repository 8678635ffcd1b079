-- ===== src/Settlement.antt =====
-- services/user-service/src/modules/deal/settlement-policy.ts,
-- services/user-service/src/modules/payment/settlement-payment-policy.ts and the enums they use: which
-- settlement terms a deal may have, and which payment method may fund them.
pub mod Laws
use telegram_garant_contract.Common.{
  ℕ, Bool, true, false, not, ◌&&◌, ◌||◌, List, [], ◌∷◌, Text, Option, none, some, ltb, ◌==◌, length,
  any, is_some, text_eq, trim, Result, ok, err, throw_if, or_throw, ◌>>=◌, ◌>>◌,
}
use telegram_garant_contract.Deal.{Deal, DealStatus}

pub data SettlementNetwork : Type 0 where
  ton polygon : SettlementNetwork

pub data SettlementAsset : Type 0 where
  ton_usdt ton_native polygon_usdt : SettlementAsset

pub data SettlementMode : Type 0 where
  native legacy_ton_to_polygon : SettlementMode

pub data ClientChannel : Type 0 where
  telegram_mini_app web admin_web : ClientChannel

pub data PaymentMethod : Type 0 where
  cryptomus card e_wallet crypto crypto_ton crypto_toncoin balance : PaymentMethod

pub record SettlementSelection : Type 0 where
  pub network : SettlementNetwork
  pub chain_id : Text
  pub asset : SettlementAsset

-- A selection as a client sends it: a property may be missing.
pub record RawSelection : Type 0 where
  pub network : Option SettlementNetwork
  pub chain_id : Option Text
  pub asset : Option SettlementAsset

pub data SettlementError : Type 0 where
  settlement_required polygon_not_in_mini_app asset_not_supported invalid_chain_id
        settlement_cannot_change method_not_configured native_ton_not_enabled
        method_does_not_match :
      SettlementError

unfoldable pub network_eq : SettlementNetwork → SettlementNetwork → Bool
network_eq ton ton = true
network_eq polygon polygon = true
network_eq _ _ = false

unfoldable pub asset_eq : SettlementAsset → SettlementAsset → Bool
asset_eq ton_usdt ton_usdt = true
asset_eq ton_native ton_native = true
asset_eq polygon_usdt polygon_usdt = true
asset_eq _ _ = false

unfoldable pub mode_eq : SettlementMode → SettlementMode → Bool
mode_eq native native = true
mode_eq legacy_ton_to_polygon legacy_ton_to_polygon = true
mode_eq _ _ = false

abbrev pub is_mini_app : ClientChannel → Bool
is_mini_app telegram_mini_app = true
is_mini_app _ = false

-- ASSETS_BY_NETWORK
abbrev pub assets_by_network : SettlementNetwork → List SettlementAsset
assets_by_network ton = ton_usdt ∷ ton_native ∷ []
assets_by_network polygon = polygon_usdt ∷ []

unfoldable pub supports : SettlementNetwork → SettlementAsset → Bool
unfolding asset_eq
supports network asset = any (asset_eq asset) (assets_by_network network)

-- A text that is truthy.
abbrev pub non_empty : Option Text → Option Text
non_empty none = none
non_empty (some []) = none
non_empty (some (c ∷ s)) = some (c ∷ s)

-- The tests behind the one on missing properties.
unfoldable pub validate_present :
    SettlementNetwork
    → Text
    → SettlementAsset
    → ClientChannel
    → Result SettlementError SettlementSelection
validate_present network chain_id asset channel = do
  throw_if (is_mini_app channel && not (network_eq network ton))
      SettlementError.polygon_not_in_mini_app
  throw_if (not (supports network asset)) SettlementError.asset_not_supported
  throw_if (length (trim chain_id) == 0 || ltb 64 (length (trim chain_id)))
      SettlementError.invalid_chain_id
  ok (record { network = network; chain_id = trim chain_id; asset = asset })

unfoldable pub validate_settlement_selection :
    Option RawSelection → ClientChannel → Result SettlementError SettlementSelection
validate_settlement_selection selection channel = do
  s ← or_throw selection SettlementError.settlement_required
  network ← or_throw s.network SettlementError.settlement_required
  chain_id ← or_throw (non_empty s.chain_id) SettlementError.settlement_required
  asset ← or_throw s.asset SettlementError.settlement_required
  validate_present network chain_id asset channel

unfoldable pub settlement_selection_changed : SettlementSelection → SettlementSelection → Bool
settlement_selection_changed current next =
    not (network_eq current.network next.network)
    || (not (text_eq current.chain_id next.chain_id) || not (asset_eq current.asset next.asset))

abbrev pub is_before_payment : DealStatus → Bool
is_before_payment DealStatus.draft = true
is_before_payment DealStatus.pending_acceptance = true
is_before_payment _ = false

unfoldable pub assert_settlement_can_change : Deal → Result SettlementError (Unit {0})
assert_settlement_can_change d =
    throw_if (is_some d.paid_at || (is_some d.funded_at || not (is_before_payment d.status)))
      SettlementError.settlement_cannot_change

pub record PaymentRouteProfile : Type 0 where
  pub funding_network : Option SettlementNetwork
  pub settlement_network : SettlementNetwork
  pub settlement_asset : SettlementAsset
  pub settlement_mode : SettlementMode
  pub channels : List ClientChannel

abbrev native_polygon : Option SettlementNetwork → PaymentRouteProfile
native_polygon funding = record {
  funding_network = funding;
  settlement_network = polygon;
  settlement_asset = polygon_usdt;
  settlement_mode = native;
  channels = web ∷ [];
}

abbrev legacy_ton : PaymentRouteProfile
legacy_ton = record {
  funding_network = some ton;
  settlement_network = polygon;
  settlement_asset = polygon_usdt;
  settlement_mode = legacy_ton_to_polygon;
  channels = [];
}

-- PAYMENT_ROUTE_PROFILES
unfoldable pub payment_route_profile : PaymentMethod → Option PaymentRouteProfile
payment_route_profile cryptomus = some (native_polygon none)
payment_route_profile crypto = some (native_polygon (some polygon))
payment_route_profile crypto_ton = some legacy_ton
payment_route_profile crypto_toncoin = some legacy_ton
payment_route_profile card = none
payment_route_profile e_wallet = none
payment_route_profile balance = none

-- The immutable terms of a deal; an untyped historical deal lacks them.
pub record SettlementTerms : Type 0 where
  pub settlement_network : Option SettlementNetwork
  pub settlement_asset : Option SettlementAsset
  pub settlement_mode : Option SettlementMode

abbrev pub matches :
    PaymentRouteProfile → SettlementNetwork → SettlementAsset → SettlementMode → Bool
matches p network asset mode =
    network_eq p.settlement_network network
    && (asset_eq p.settlement_asset asset && mode_eq p.settlement_mode mode)

unfoldable pub assert_typed_terms :
    SettlementNetwork
    → SettlementAsset
    → SettlementMode
    → PaymentMethod
    → Result SettlementError (Unit {0})
assert_typed_terms network asset mode method = do
  profile ← or_throw (payment_route_profile method) SettlementError.method_not_configured
  throw_if
      (not (matches profile network asset mode) && (network_eq network ton && mode_eq mode native))
      SettlementError.native_ton_not_enabled
  throw_if (not (matches profile network asset mode)) SettlementError.method_does_not_match

unfoldable pub assert_payment_method_matches_deal :
    SettlementTerms → PaymentMethod → Result SettlementError (Unit {0})
assert_payment_method_matches_deal terms method = elim terms.settlement_network [
  | none ↦ ok tt
  | some network ↦ elim terms.settlement_asset [
    | none ↦ ok tt
    | some asset ↦ elim terms.settlement_mode [
      | none ↦ ok tt
      | some mode ↦ assert_typed_terms network asset mode method
    ]
  ]
]
