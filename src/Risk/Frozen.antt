-- ===== src/Risk/Frozen.antt =====
-- The constructor of the Ink dust-risk policy in src/qnty_authority_root/risk.py.
use qnty_authority_root.Prelude.{
  ◌≡◌, refl, sym, ap, ◌∙◌, ◌↔◌, ℕ, Bool, true, false, not, ◌&&◌, &&-elim, Text, String, text_eq,
  text_eq_sound, ◌==◌, ==_iff,
}
use qnty_authority_root.Errors.{ok, issuance_policy_error, raise_if-eq-ok, >>=-elim}
use qnty_authority_root.Risk.{
  Fraction, InkV0FDustRiskPolicyV0, ink_v0f_dust_risk_policy, frozen_message, frozen_text,
  frozen_number, frozen_fraction, positive, bps, check_expected, check_ranges, ink_v0f_dust_risk,
  ink_v0f_risk_schema, qntyspot_repository_identity, ink_v0f_network_id, ink_v0f_venue_id,
  ink_v0f_pool_address, ink_v0f_base_instrument_id, ink_v0f_quote_instrument_id,
}

not-true : (b : Bool) → not b ≡ false → b ≡ true
not-true true h = refl
not-true false h = absurd cc

frozen_text-eq-ok : (field : String) (s t : Text) → frozen_text field s t ≡ ok tt → s ≡ t
unfolding frozen_text
frozen_text-eq-ok field s t h = text_eq_sound s t (
    not-true (text_eq s t)
      (raise_if-eq-ok (not (text_eq s t)) issuance_policy_error field frozen_message h))

frozen_number-eq-ok : (field : String) (m n : ℕ) → frozen_number field m n ≡ ok tt → m ≡ n
unfolding frozen_number
frozen_number-eq-ok field m n h =
    (==_iff m n).0 (
      not-true (m == n)
        (raise_if-eq-ok (not (m == n)) issuance_policy_error field frozen_message h))

same_fraction : (q r : Fraction) → q.numerator ≡ r.numerator → q.denominator ≡ r.denominator → q ≡ r
same_fraction q r h k = cc

frozen_fraction-eq-ok :
    (field : String) (q r : Fraction) → frozen_fraction field q r ≡ ok tt → q ≡ r
unfolding frozen_fraction
frozen_fraction-eq-ok field q r h =
    let same = q.numerator == r.numerator && q.denominator == r.denominator in
    let (a, b) =
      &&-elim (q.numerator == r.numerator) (q.denominator == r.denominator)
        (not-true same (raise_if-eq-ok (not same) issuance_policy_error field frozen_message h)) in
    same_fraction q r ((==_iff q.numerator r.numerator).0 a)
      ((==_iff q.denominator r.denominator).0 b)

same_policy :
    (p q : InkV0FDustRiskPolicyV0)
    → p.repository_identity ≡ q.repository_identity
    → p.network_id ≡ q.network_id
    → p.venue_id ≡ q.venue_id
    → p.pool_address ≡ q.pool_address
    → p.base_instrument_id ≡ q.base_instrument_id
    → p.quote_instrument_id ≡ q.quote_instrument_id
    → p.max_entry_atomic ≡ q.max_entry_atomic
    → p.max_cumulative_entry_atomic ≡ q.max_cumulative_entry_atomic
    → p.max_open_positions_global ≡ q.max_open_positions_global
    → p.max_open_positions_per_network ≡ q.max_open_positions_per_network
    → p.max_open_positions_per_instrument ≡ q.max_open_positions_per_instrument
    → p.max_in_flight_entries ≡ q.max_in_flight_entries
    → p.max_price_impact_bps ≡ q.max_price_impact_bps
    → p.max_slippage_bps ≡ q.max_slippage_bps
    → p.max_grant_duration_s ≡ q.max_grant_duration_s
    → p.profit_recycle_ratio ≡ q.profit_recycle_ratio
    → p.banked_profit_ratio ≡ q.banked_profit_ratio
    → p.schema ≡ q.schema
    → p ≡ q
same_policy p q e0 e1 e2 e3 e4 e5 e6 e7 e8 e9 e10 e11 e12 e13 e14 e15 e16 e17 = cc

check_expected-eq-ok :
    (p : InkV0FDustRiskPolicyV0) → check_expected p ≡ ok tt → p ≡ ink_v0f_dust_risk_policy
unfolding check_expected
check_expected-eq-ok p h =
    let frozen = ink_v0f_dust_risk_policy in
    >>=-elim (frozen_text "repository_identity" p.repository_identity frozen.repository_identity) _
      h
      λ _ h0 h. >>=-elim (frozen_text "network_id" p.network_id frozen.network_id) _ h λ _ h1 h.
        >>=-elim (frozen_text "venue_id" p.venue_id frozen.venue_id) _ h λ _ h2 h.
          >>=-elim (frozen_text "pool_address" p.pool_address frozen.pool_address) _ h λ _ h3 h.
            >>=-elim
              (frozen_text "base_instrument_id" p.base_instrument_id frozen.base_instrument_id) _ h
              λ _ h4 h.
                >>=-elim
                  (frozen_text "quote_instrument_id" p.quote_instrument_id
                    frozen.quote_instrument_id)
                  _ h
                  λ _ h5 h.
                    >>=-elim
                      (frozen_number "max_entry_atomic" p.max_entry_atomic frozen.max_entry_atomic)
                      _ h
                      λ _ h6 h.
                        >>=-elim
                          (frozen_number "max_cumulative_entry_atomic" p.max_cumulative_entry_atomic
                            frozen.max_cumulative_entry_atomic)
                          _ h
                          λ _ h7 h.
                            >>=-elim
                              (frozen_number "max_open_positions_global" p.max_open_positions_global
                                frozen.max_open_positions_global)
                              _ h
                              λ _ h8 h.
                                >>=-elim
                                  (frozen_number "max_open_positions_per_network"
                                    p.max_open_positions_per_network
                                    frozen.max_open_positions_per_network)
                                  _ h
                                  λ _ h9 h.
                                    >>=-elim
                                      (frozen_number "max_open_positions_per_instrument"
                                        p.max_open_positions_per_instrument
                                        frozen.max_open_positions_per_instrument)
                                      _ h
                                      λ _ h10 h.
                                        >>=-elim
                                          (frozen_number "max_in_flight_entries"
                                            p.max_in_flight_entries frozen.max_in_flight_entries)
                                          _ h
                                          λ _ h11 h.
                                            >>=-elim
                                              (frozen_number "max_price_impact_bps"
                                                p.max_price_impact_bps frozen.max_price_impact_bps)
                                              _ h
                                              λ _ h12 h.
                                                >>=-elim
                                                  (frozen_number "max_slippage_bps"
                                                    p.max_slippage_bps frozen.max_slippage_bps)
                                                  _ h
                                                  λ _ h13 h.
                                                    >>=-elim
                                                      (frozen_number "max_grant_duration_s"
                                                        p.max_grant_duration_s
                                                        frozen.max_grant_duration_s)
                                                      _ h
                                                      λ _ h14 h.
                                                        >>=-elim
                                                          (frozen_fraction "profit_recycle_ratio"
                                                            p.profit_recycle_ratio
                                                            frozen.profit_recycle_ratio)
                                                          _ h
                                                          λ _ h15 h.
                                                            >>=-elim
                                                            (frozen_fraction "banked_profit_ratio"
                                                            p.banked_profit_ratio
                                                            frozen.banked_profit_ratio)
                                                            _ h
                                                            λ _ h16 h.
                                                            same_policy p frozen
                                                            (frozen_text-eq-ok "repository_identity"
                                                            p.repository_identity
                                                            frozen.repository_identity h0)
                                                            (frozen_text-eq-ok "network_id"
                                                            p.network_id frozen.network_id h1)
                                                            (frozen_text-eq-ok "venue_id" p.venue_id
                                                            frozen.venue_id h2)
                                                            (frozen_text-eq-ok "pool_address"
                                                            p.pool_address frozen.pool_address h3)
                                                            (frozen_text-eq-ok "base_instrument_id"
                                                            p.base_instrument_id
                                                            frozen.base_instrument_id h4)
                                                            (frozen_text-eq-ok "quote_instrument_id"
                                                            p.quote_instrument_id
                                                            frozen.quote_instrument_id h5)
                                                            (frozen_number-eq-ok "max_entry_atomic"
                                                            p.max_entry_atomic
                                                            frozen.max_entry_atomic h6)
                                                            (frozen_number-eq-ok
                                                            "max_cumulative_entry_atomic"
                                                            p.max_cumulative_entry_atomic
                                                            frozen.max_cumulative_entry_atomic h7)
                                                            (frozen_number-eq-ok
                                                            "max_open_positions_global"
                                                            p.max_open_positions_global
                                                            frozen.max_open_positions_global h8)
                                                            (frozen_number-eq-ok
                                                            "max_open_positions_per_network"
                                                            p.max_open_positions_per_network
                                                            frozen.max_open_positions_per_network
                                                            h9)
                                                            (frozen_number-eq-ok
                                                            "max_open_positions_per_instrument"
                                                            p.max_open_positions_per_instrument
                                                            frozen.max_open_positions_per_instrument
                                                            h10)
                                                            (frozen_number-eq-ok
                                                            "max_in_flight_entries"
                                                            p.max_in_flight_entries
                                                            frozen.max_in_flight_entries h11)
                                                            (frozen_number-eq-ok
                                                            "max_price_impact_bps"
                                                            p.max_price_impact_bps
                                                            frozen.max_price_impact_bps h12)
                                                            (frozen_number-eq-ok "max_slippage_bps"
                                                            p.max_slippage_bps
                                                            frozen.max_slippage_bps h13)
                                                            (frozen_number-eq-ok
                                                            "max_grant_duration_s"
                                                            p.max_grant_duration_s
                                                            frozen.max_grant_duration_s h14)
                                                            (frozen_fraction-eq-ok
                                                            "profit_recycle_ratio"
                                                            p.profit_recycle_ratio
                                                            frozen.profit_recycle_ratio h15)
                                                            (frozen_fraction-eq-ok
                                                            "banked_profit_ratio"
                                                            p.banked_profit_ratio
                                                            frozen.banked_profit_ratio h16)
                                                            (frozen_text-eq-ok "schema" p.schema
                                                            frozen.schema h)

frozen-ok : ink_v0f_dust_risk ink_v0f_dust_risk_policy ≡ ok ink_v0f_dust_risk_policy
unfolding ink_v0f_dust_risk check_expected check_ranges frozen_text frozen_number frozen_fraction
    positive bps text_eq ink_v0f_dust_risk_policy ink_v0f_risk_schema qntyspot_repository_identity
    ink_v0f_network_id ink_v0f_venue_id ink_v0f_pool_address ink_v0f_base_instrument_id
    ink_v0f_quote_instrument_id
frozen-ok = refl

-- The constructor of the dust-risk policy accepts the frozen policy and no other, and returns it.
pub ink_v0f_dust_risk_iff :
    (p q : InkV0FDustRiskPolicyV0)
    → (ink_v0f_dust_risk p ≡ ok q)
      ↔ ((p ≡ ink_v0f_dust_risk_policy) × (q ≡ ink_v0f_dust_risk_policy))
unfolding ink_v0f_dust_risk
ink_v0f_dust_risk_iff p q = (accepted, accepts)
  where
    accepted :
        ink_v0f_dust_risk p ≡ ok q → (p ≡ ink_v0f_dust_risk_policy) × (q ≡ ink_v0f_dust_risk_policy)
    accepted h = >>=-elim (check_expected p) _ h λ _ expected h.
        >>=-elim (check_ranges p) _ h λ _ _ h.
          let frozen = check_expected-eq-ok p expected in
          let same : p ≡ q = cc in (frozen, sym same ∙ frozen)

    accepts :
        (p ≡ ink_v0f_dust_risk_policy) × (q ≡ ink_v0f_dust_risk_policy) → ink_v0f_dust_risk p ≡ ok q
    accepts (e, f) = ap ink_v0f_dust_risk e ∙ (frozen-ok ∙ ap ok (sym f))
