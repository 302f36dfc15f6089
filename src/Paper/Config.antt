-- ===== src/Paper/Config.antt =====
-- The configuration of a run: `_paper_config` of src/atp/store/base.py.
use text.Mathlib.Text.{◌==◌ as str_eq}
use aitrading.Common.{ℕ, zero, Bool, not, ◌||◌, Option, none, some, String}
use aitrading.Common.Int.{ℤ, pos, ltb_ℤ, leb_ℤ}
use aitrading.Paper.Money.{
  Result, ok, failed, value_error, ◌>>=◌, ◌>>◌, raise_if, positive_amount, nonnegative_amount,
}

-- The decoded object, its keys the required ones. An amount is nothing where the value is not a
-- canonical decimal string, and the number of orders where it is not a whole number.
pub record RawConfig : Type 0 where
  pub tag : String
  pub mode : String
  pub instrument : String
  pub asset_class : String
  pub max_order_notional : Option ℤ
  pub max_gross_notional : Option ℤ
  pub max_daily_turnover : Option ℤ
  pub starting_cash : Option ℤ
  pub commission_per_unit : Option ℤ
  pub min_commission : Option ℤ
  pub slippage_bps : Option ℤ
  pub quote_max_age_s : Option ℤ
  pub max_orders : Option ℕ

pub record PaperConfig : Type 0 where
  pub instrument : String
  pub max_order_notional : ℤ
  pub max_gross_notional : ℤ
  pub max_daily_turnover : ℤ
  pub starting_cash : ℤ
  pub commission_per_unit : ℤ
  pub min_commission : ℤ
  pub slippage_bps : ℤ
  pub quote_max_age_s : ℤ
  pub max_orders : ℕ

-- What the code takes from Python's json, hashlib and str: the object of a text, the canonical text of an
-- object, the checksum of a text, and whether a text is one upper-case symbol.
pub record Codec : Type 0 where
  pub decode : String → Option RawConfig
  pub canonical : RawConfig → String
  pub checksum : String → String
  pub is_symbol : String → Bool

abbrev pub positive_count : Option ℕ → Result ℕ
positive_count none = failed (value_error "config max_orders must be a positive integer")
positive_count (some zero) = failed (value_error "config max_orders must be a positive integer")
positive_count (some n) = ok n

-- 10000 basis points, in units of 10^-8.
abbrev pub all_basis_points : ℤ
all_basis_points = pos 1_000_000_000_000

-- The checks on a decoded object.
unfoldable pub checked_config : Codec → RawConfig → Result PaperConfig
checked_config codec raw = do
  raise_if (not (str_eq raw.tag "atp.paper-canary.config.v1") || not (str_eq raw.mode "paper"))
      (value_error "config_json has an invalid Paper Canary scope tag/mode")
  raise_if (not (codec.is_symbol raw.instrument))
      (value_error "config instrument must be one non-empty uppercase symbol")
  raise_if (not (str_eq raw.asset_class "EQUITY")) (value_error "Paper Canary supports only EQUITY")
  order_cap ← positive_amount raw.max_order_notional
  gross_cap ← positive_amount raw.max_gross_notional
  turnover_cap ← positive_amount raw.max_daily_turnover
  starting_cash ← positive_amount raw.starting_cash
  per_unit ← nonnegative_amount raw.commission_per_unit
  min_commission ← nonnegative_amount raw.min_commission
  slippage ← nonnegative_amount raw.slippage_bps
  max_age ← positive_amount raw.quote_max_age_s
  max_orders ← positive_count raw.max_orders
  raise_if (ltb_ℤ gross_cap order_cap)
      (value_error "max_order_notional cannot exceed max_gross_notional")
  raise_if (ltb_ℤ starting_cash gross_cap)
      (value_error "max_gross_notional cannot exceed starting_cash")
  raise_if (leb_ℤ all_basis_points slippage) (value_error "slippage_bps must be below 10000")
  ok (record {
    instrument = raw.instrument;
    max_order_notional = order_cap;
    max_gross_notional = gross_cap;
    max_daily_turnover = turnover_cap;
    starting_cash = starting_cash;
    commission_per_unit = per_unit;
    min_commission = min_commission;
    slippage_bps = slippage;
    quote_max_age_s = max_age;
    max_orders = max_orders;
  })

-- The configuration, its canonical text and the checksum of that.
pub record ParsedConfig : Type 0 where
  pub config : PaperConfig
  pub canonical : String
  pub checksum : String

unfoldable pub decoded_config : Codec → Option RawConfig → Result ParsedConfig
unfolding checked_config
decoded_config codec none =
    failed (value_error "config_json has an invalid durable Paper Canary shape")
decoded_config codec (some raw) = do
  config ← checked_config codec raw
  ok (record {
    config = config;
    canonical = codec.canonical raw;
    checksum = codec.checksum (codec.canonical raw);
  })

-- `_paper_config`
unfoldable pub paper_config : Codec → (config_json : String) → Result ParsedConfig
unfolding decoded_config
paper_config codec text = decoded_config codec (codec.decode text)
