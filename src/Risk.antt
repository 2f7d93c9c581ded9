-- ===== src/Risk.antt =====
-- src/qnty_authority_root/risk.py: the frozen dust-risk envelope of the Ink V0F profile.
pub mod Frozen
use qnty_authority_root.Prelude.{
  ℕ, ◌-◌, Bool, not, ◌&&◌, Text, String, codes, pos, ltb, ◌==◌, text_eq,
}
use qnty_authority_root.Errors.{Result, ok, raise_if, ◌>>◌, issuance_policy_error}
use qnty_authority_root.Decimal.{decimal}
use qnty_authority_root.Json.Values.{Value, int, str, obj, end}
use qnty_authority_root.Json.Access.{entry}
use qnty_authority_root.Canon.{canonical_json_bytes, digest_object}
use qnty_authority_root.Contract.PolicyRef.{
  AuthorityPolicyRefV0, level_number, human_signed_execution,
}
use qnty_authority_root.Prelude.{Bytes}

unfoldable pub ink_v0f_risk_schema : Text
ink_v0f_risk_schema = codes "qnty.authority_root.ink_v0f_dust_risk_policy.v0"

unfoldable pub qntyspot_repository_identity : Text
qntyspot_repository_identity = codes "CipherCuttle/QntySpot"

unfoldable pub ink_v0f_network_id : Text
ink_v0f_network_id = codes "evm:57073"

unfoldable pub ink_v0f_venue_id : Text
ink_v0f_venue_id = codes "inkyswap-v2-ink-mainnet"

unfoldable pub ink_v0f_pool_address : Text
ink_v0f_pool_address = codes "0xed11ed4b195e84ba9b74c4d6ce13b7a43b354264"

unfoldable pub ink_v0f_base_instrument_id : Text
ink_v0f_base_instrument_id = codes "evm:57073:0x32bcb803f696c99eb263d60a05cafd8689026575"

unfoldable pub ink_v0f_quote_instrument_id : Text
ink_v0f_quote_instrument_id = codes "evm:57073:0x4200000000000000000000000000000000000006"

-- 0.001 WETH in atomic units, and the other limits.
abbrev pub ink_v0f_max_entry_atomic : ℕ
ink_v0f_max_entry_atomic = 1_000_000_000_000_000

abbrev pub ink_v0f_max_cumulative_entry_atomic : ℕ
ink_v0f_max_cumulative_entry_atomic = 1_000_000_000_000_000

abbrev pub ink_v0f_max_price_impact_bps : ℕ
ink_v0f_max_price_impact_bps = 100

abbrev pub ink_v0f_max_slippage_bps : ℕ
ink_v0f_max_slippage_bps = 50

abbrev pub ink_v0f_max_grant_duration_s : ℕ
ink_v0f_max_grant_duration_s = 900

-- A `Fraction` that is not negative, in lowest terms.
pub record Fraction : Type 0 where
  pub numerator : ℕ
  pub denominator : ℕ

pub record InkV0FDustRiskPolicyV0 : Type 0 where
  pub repository_identity : Text
  pub network_id : Text
  pub venue_id : Text
  pub pool_address : Text
  pub base_instrument_id : Text
  pub quote_instrument_id : Text
  pub max_entry_atomic : ℕ
  pub max_cumulative_entry_atomic : ℕ
  pub max_open_positions_global : ℕ
  pub max_open_positions_per_network : ℕ
  pub max_open_positions_per_instrument : ℕ
  pub max_in_flight_entries : ℕ
  pub max_price_impact_bps : ℕ
  pub max_slippage_bps : ℕ
  pub max_grant_duration_s : ℕ
  pub profit_recycle_ratio : Fraction
  pub banked_profit_ratio : Fraction
  pub schema : Text

-- The defaults of the fields.
unfoldable pub ink_v0f_dust_risk_policy : InkV0FDustRiskPolicyV0
ink_v0f_dust_risk_policy = record {
  repository_identity = qntyspot_repository_identity;
  network_id = ink_v0f_network_id;
  venue_id = ink_v0f_venue_id;
  pool_address = ink_v0f_pool_address;
  base_instrument_id = ink_v0f_base_instrument_id;
  quote_instrument_id = ink_v0f_quote_instrument_id;
  max_entry_atomic = ink_v0f_max_entry_atomic;
  max_cumulative_entry_atomic = ink_v0f_max_cumulative_entry_atomic;
  max_open_positions_global = 1;
  max_open_positions_per_network = 1;
  max_open_positions_per_instrument = 1;
  max_in_flight_entries = 1;
  max_price_impact_bps = ink_v0f_max_price_impact_bps;
  max_slippage_bps = ink_v0f_max_slippage_bps;
  max_grant_duration_s = ink_v0f_max_grant_duration_s;
  profit_recycle_ratio = record { numerator = 0; denominator = 1 };
  banked_profit_ratio = record { numerator = 1; denominator = 1 };
  schema = ink_v0f_risk_schema;
}

abbrev pub refuse_if : Bool → String → String → Result (Unit {0})
refuse_if test field message = raise_if test issuance_policy_error field message

abbrev pub frozen_message : String
frozen_message = "Ink V0F dust-risk policy is frozen and cannot be widened or changed"

-- One round of the loop over `expected`, at a text, a number or a fraction.
unfoldable pub frozen_text : String → Text → Text → Result (Unit {0})
frozen_text field actual frozen = refuse_if (not (text_eq actual frozen)) field frozen_message

unfoldable pub frozen_number : String → ℕ → ℕ → Result (Unit {0})
frozen_number field actual frozen = refuse_if (not (actual == frozen)) field frozen_message

unfoldable pub frozen_fraction : String → Fraction → Fraction → Result (Unit {0})
frozen_fraction field actual frozen =
    refuse_if
      (not (actual.numerator == frozen.numerator && actual.denominator == frozen.denominator)) field
      frozen_message

unfoldable pub positive : ℕ → String → Result (Unit {0})
positive value field = refuse_if (value == 0) field "expected positive integer"

unfoldable pub bps : ℕ → String → Result (Unit {0})
bps value field = refuse_if (ltb 10_000 value) field "expected integer basis points in [0, 10000]"

-- `__post_init__`: the loop over `expected`, then the range checks.
unfoldable pub check_expected : InkV0FDustRiskPolicyV0 → Result (Unit {0})
check_expected p =
    let frozen = ink_v0f_dust_risk_policy in
    do
      frozen_text "repository_identity" p.repository_identity frozen.repository_identity
      frozen_text "network_id" p.network_id frozen.network_id
      frozen_text "venue_id" p.venue_id frozen.venue_id
      frozen_text "pool_address" p.pool_address frozen.pool_address
      frozen_text "base_instrument_id" p.base_instrument_id frozen.base_instrument_id
      frozen_text "quote_instrument_id" p.quote_instrument_id frozen.quote_instrument_id
      frozen_number "max_entry_atomic" p.max_entry_atomic frozen.max_entry_atomic
      frozen_number "max_cumulative_entry_atomic" p.max_cumulative_entry_atomic
          frozen.max_cumulative_entry_atomic
      frozen_number "max_open_positions_global" p.max_open_positions_global
          frozen.max_open_positions_global
      frozen_number "max_open_positions_per_network" p.max_open_positions_per_network
          frozen.max_open_positions_per_network
      frozen_number "max_open_positions_per_instrument" p.max_open_positions_per_instrument
          frozen.max_open_positions_per_instrument
      frozen_number "max_in_flight_entries" p.max_in_flight_entries frozen.max_in_flight_entries
      frozen_number "max_price_impact_bps" p.max_price_impact_bps frozen.max_price_impact_bps
      frozen_number "max_slippage_bps" p.max_slippage_bps frozen.max_slippage_bps
      frozen_number "max_grant_duration_s" p.max_grant_duration_s frozen.max_grant_duration_s
      frozen_fraction "profit_recycle_ratio" p.profit_recycle_ratio frozen.profit_recycle_ratio
      frozen_fraction "banked_profit_ratio" p.banked_profit_ratio frozen.banked_profit_ratio
      frozen_text "schema" p.schema frozen.schema

unfoldable pub check_ranges : InkV0FDustRiskPolicyV0 → Result (Unit {0})
check_ranges p = do
  positive p.max_entry_atomic "max_entry_atomic"
  positive p.max_cumulative_entry_atomic "max_cumulative_entry_atomic"
  positive p.max_open_positions_global "max_open_positions_global"
  positive p.max_open_positions_per_network "max_open_positions_per_network"
  positive p.max_open_positions_per_instrument "max_open_positions_per_instrument"
  positive p.max_in_flight_entries "max_in_flight_entries"
  positive p.max_grant_duration_s "max_grant_duration_s"
  bps p.max_price_impact_bps "max_price_impact_bps"
  bps p.max_slippage_bps "max_slippage_bps"

-- The constructor.
unfoldable pub ink_v0f_dust_risk : InkV0FDustRiskPolicyV0 → Result InkV0FDustRiskPolicyV0
ink_v0f_dust_risk p = do check_expected p; check_ranges p; ok p

unfoldable pub fraction_object : Fraction → Value
fraction_object q = obj (
    entry "numerator" (str (decimal q.numerator))
      (entry "denominator" (str (decimal q.denominator)) end))

-- `canonical_object`, `serialized` and `policy_digest`.
unfoldable pub risk_object : InkV0FDustRiskPolicyV0 → Value
unfolding fraction_object
risk_object p = obj (
    entry "banked_profit_ratio" (fraction_object p.banked_profit_ratio) (
      entry "base_instrument_id" (str p.base_instrument_id) (
        entry "max_cumulative_entry_atomic" (str (decimal p.max_cumulative_entry_atomic)) (
          entry "max_entry_atomic" (str (decimal p.max_entry_atomic)) (
            entry "max_grant_duration_s" (int (pos p.max_grant_duration_s)) (
              entry "max_in_flight_entries" (int (pos p.max_in_flight_entries)) (
                entry "max_open_positions_global" (int (pos p.max_open_positions_global)) (
                  entry "max_open_positions_per_instrument"
                    (int (pos p.max_open_positions_per_instrument))
                    (entry "max_open_positions_per_network"
                      (int (pos p.max_open_positions_per_network))
                      (entry "max_price_impact_bps" (int (pos p.max_price_impact_bps)) (
                        entry "max_slippage_bps" (int (pos p.max_slippage_bps)) (
                          entry "network_id" (str p.network_id) (
                            entry "pool_address" (str p.pool_address) (
                              entry "profit_recycle_ratio" (fraction_object p.profit_recycle_ratio)
                                (entry "quote_instrument_id" (str p.quote_instrument_id) (
                                  entry "repository_identity" (str p.repository_identity) (
                                    entry "schema" (str p.schema)
                                      (entry "venue_id" (str p.venue_id) end))))))))))))))))))

unfoldable pub risk_serialized : InkV0FDustRiskPolicyV0 → Bytes
risk_serialized p = canonical_json_bytes (risk_object p)

unfoldable pub risk_policy_digest : InkV0FDustRiskPolicyV0 → Text
risk_policy_digest p = digest_object (risk_object p)

unfoldable pub ink_v0f_dust_risk_policy_digest : Text
ink_v0f_dust_risk_policy_digest =
    codes "c7058aec58f3fbcb4f2b390a6eac35bdb9d8cab2484a2ff22731f2dc586e8ee3"

-- A grant's duration. The interval of a policy is not empty, so that truncation at 0 loses nothing;
-- where it would, the code's test against an upper limit fails as well.
abbrev pub duration : AuthorityPolicyRefV0 → ℕ
duration a = a.not_after_epoch_s - a.not_before_epoch_s

unfoldable pub assert_ink_v0f_authority_policy_admissible :
    AuthorityPolicyRefV0 → Text → Result (Unit {0})
assert_ink_v0f_authority_policy_admissible authority repository_identity =
    let risk = ink_v0f_dust_risk_policy in
    do
      refuse_if (not (text_eq repository_identity risk.repository_identity)) ""
          "Ink V0F request targets a different repository"
      refuse_if (not (text_eq authority.permitted_network_id risk.network_id)) ""
          "Ink V0F request targets a different network"
      refuse_if (not (text_eq authority.permitted_venue_id risk.venue_id)) ""
          "Ink V0F request targets a different venue"
      refuse_if (ltb (level_number human_signed_execution) (level_number authority.granted_level))
          "" "Ink V0F does not authorize an autonomous signer"
      refuse_if (ltb risk.max_entry_atomic authority.max_reservation_atomic) ""
          "Ink V0F reservation exceeds the dust entry cap"
      refuse_if (ltb risk.max_cumulative_entry_atomic authority.max_cumulative_atomic) ""
          "Ink V0F cumulative capital exceeds the dust cap"
      refuse_if (ltb risk.max_grant_duration_s (duration authority)) ""
          "Ink V0F grant duration exceeds the dust-risk policy"
