-- ===== src/Paper/Risk.antt =====
-- The checksum of the risk configuration that a run is bound to: `_paper_risk_checksum_in_tx` and
-- `_paper_risk_capital_in_tx` of src/atp/store/base.py. The hash over the amounts, `risk_config_token`, is
-- an argument.
use aitrading.Common.{
  ℕ, Bool, true, false, not, ◌||◌, Option, none, some, String, if◌then◌else◌, ◌==◌,
}
use aitrading.Common.Int.{ℤ, pos, ltb_ℤ}
use aitrading.Paper.Money.{
  Result, ok, failed, safety_error, ◌>>=◌, ◌>>◌, raise_if, or_fail, is_empty,
}
use aitrading.Paper.Tables.{RiskConfig, RiskPolicy, PaperLedger}

-- What the token is computed from.
pub record RiskTerms : Type 0 where
  pub capital : ℤ
  pub risk_per_trade_pct : ℤ
  pub max_daily_loss_pct : ℤ
  pub rc_updated_at : ℕ
  pub config_version : ℕ
  pub currency : String
  pub warning_threshold_pct : ℤ
  pub max_portfolio_exposure_pct : ℤ
  pub max_drawdown_pct : ℤ

abbrev pub hundred : ℤ
hundred = pos 10_000_000_000

-- An exact positive amount, or the exception.
abbrev pub exact_positive : Option ℤ → String → Result ℤ
exact_positive none message = failed (safety_error message)
exact_positive (some x) message = if ltb_ℤ (pos 0) x then ok x else failed (safety_error message)

abbrev pub is_none {ℓ} : {A : Type ℓ} → Option A → Bool
is_none none = true
is_none (some _) = false

-- The currency, where it is a stripped text that is not empty.
abbrev pub usable_currency : (is_stripped : String → Bool) → Option String → Result String
usable_currency is_stripped none = failed (safety_error "risk_control_policy is incomplete")
usable_currency is_stripped (some c) =
    if is_empty c || not (is_stripped c)
    then failed (safety_error "risk_control_policy is incomplete")
    else ok c

-- The terms of a configuration and a policy, checked.
unfoldable pub risk_terms :
    (is_stripped : String → Bool) → RiskConfig → Option RiskPolicy → Result RiskTerms
risk_terms is_stripped risk found = do
  capital ← exact_positive risk.capital "canonical risk_config is not exact 8dp money"
  per_trade ← exact_positive risk.risk_per_trade_pct "canonical risk_config is not exact 8dp money"
  max_loss ← exact_positive risk.max_daily_loss_pct "canonical risk_config is not exact 8dp money"
  raise_if (ltb_ℤ max_loss per_trade || ltb_ℤ hundred max_loss)
      (safety_error "canonical risk_config is incomplete or out of bounds")
  policy ← or_fail found (safety_error "risk_control_policy is incomplete")
  currency ← usable_currency is_stripped policy.currency
  raise_if
      (not (policy.risk_config_id == 1)
        || is_none policy.warning_threshold_pct
        || is_none policy.max_portfolio_exposure_pct
        || is_none policy.max_drawdown_pct
        || (policy.config_version == 0))
      (safety_error "risk_control_policy is incomplete")
  warning ← exact_positive policy.warning_threshold_pct "risk_control_policy is not exact 8dp money"
  exposure ←
      exact_positive policy.max_portfolio_exposure_pct "risk_control_policy is not exact 8dp money"
  drawdown ← exact_positive policy.max_drawdown_pct "risk_control_policy is not exact 8dp money"
  raise_if (ltb_ℤ hundred warning || ltb_ℤ hundred exposure || ltb_ℤ hundred drawdown)
      (safety_error "risk_control_policy percentages are out of bounds")
  ok (record {
    capital = capital;
    risk_per_trade_pct = per_trade;
    max_daily_loss_pct = max_loss;
    rc_updated_at = risk.updated_at;
    config_version = policy.config_version;
    currency = currency;
    warning_threshold_pct = warning;
    max_portfolio_exposure_pct = exposure;
    max_drawdown_pct = drawdown;
  })

-- `_paper_risk_checksum_in_tx`
unfoldable pub risk_checksum :
    (is_stripped : String → Bool) (token : RiskTerms → String) → PaperLedger → Result String
unfolding risk_terms
risk_checksum is_stripped token l = do
  risk ← or_fail l.risk_config (safety_error "canonical risk_config is missing")
  terms ← risk_terms is_stripped risk l.risk_policy
  ok (token terms)

-- `_paper_risk_capital_in_tx`
unfoldable pub risk_capital : PaperLedger → Result ℤ
risk_capital l = do
  risk ← or_fail l.risk_config (safety_error "canonical risk_config is missing")
  exact_positive risk.capital "canonical risk capital is invalid"

-- The daily loss limit, read again within the fill.
unfoldable pub max_loss_pct : PaperLedger → Result ℤ
max_loss_pct l = do
  risk ← or_fail l.risk_config (safety_error "canonical daily loss limit is invalid")
  exact_positive risk.max_daily_loss_pct "canonical daily loss limit is invalid"
