-- ===== src/Policy.antt =====
-- src/qnty_authority_root/policy.py: the issuer's restrictions, the request, and what is admissible.
pub mod Checks
pub mod Request
pub mod Admission
pub mod Snapshots
use qnty_authority_root.Prelude.{
  ℕ, zero, suc, ◌≡◌, Bool, false, not, ◌||◌, ◌&&◌, List, [], ◌∷◌, Text, String, codes, ℤ, pos,
  negsuc, length, leb, ltb, ◌==◌, if◌then◌else◌, text_eq, text_mem,
}
use qnty_authority_root.Errors.{Result, ok, when, ◌>>=◌, ◌>>◌}
use qnty_authority_root.Regex.{fullmatch}
use qnty_authority_root.Decimal.{decimal}
use qnty_authority_root.Json.Values.{Value, int, str, arr, obj, Items, nil, cons, end}
use qnty_authority_root.Json.Access.{entry}
use qnty_authority_root.Json.Print.{text_lt}
use qnty_authority_root.Canon.{digest_object}
use qnty_authority_root.PythonText.{strip, is_reserved_scope}
use qnty_authority_root.Contract.Checks.{portable_re, max_uint256}
use qnty_authority_root.Contract.PolicyRef.{
  AuthorityLevel, PolicyArguments, AuthorityPolicyRefV0, level_number, human_signed_execution,
  authority_policy_ref, policy_object,
}
use qnty_authority_root.Risk.{
  ink_v0f_network_id, ink_v0f_venue_id, ink_v0f_dust_risk_policy, duration,
  assert_ink_v0f_authority_policy_admissible,
}
use qnty_authority_root.Binding.{ink_v0f_taker_address, assert_ink_v0f_exact_authority_binding}
use Checks.{
  deny_if, positive, exact_scope, non_empty_scopes, validate_repository_identity, same_texts,
}

unfoldable pub canonical_repository_identity : Text
canonical_repository_identity = codes "CipherCuttle/QntySpot"

unfoldable pub legacy_robinhood_testnet_network_id : Text
legacy_robinhood_testnet_network_id = codes "evm:46630"

unfoldable pub forbidden_mainnet_network_id : Text
forbidden_mainnet_network_id = codes "evm:4663"

abbrev pub supported_network_ids : List Text
supported_network_ids = legacy_robinhood_testnet_network_id ∷ ink_v0f_network_id ∷ []

abbrev pub max_grant_duration_s : ℕ
max_grant_duration_s = 3600

unfoldable pub issuance_policy_schema : Text
issuance_policy_schema = codes "qntyspot.authority_root.v0.issuance_policy"

-- What the constructor is given. A `tuple` of `str` is a list of texts.
pub record IssuancePolicyArguments : Type 0 where
  pub root_id : Text
  pub repository_identity : Text
  pub maximum_issuable_level : AuthorityLevel
  pub allowed_network_ids : List Text
  pub allowed_taker_addresses : List Text
  pub allowed_venue_ids : List Text
  pub max_reservation_atomic : ℤ
  pub max_cumulative_atomic : ℤ
  pub max_grant_duration_s : ℤ
  pub schema : Text

pub record AuthorityIssuancePolicyV0 : Type 0 where
  pub root_id : Text
  pub repository_identity : Text
  pub maximum_issuable_level : AuthorityLevel
  pub allowed_network_ids : List Text
  pub allowed_taker_addresses : List Text
  pub allowed_venue_ids : List Text
  pub max_reservation_atomic : ℕ
  pub max_cumulative_atomic : ℕ
  pub max_grant_duration_s : ℕ
  pub schema : Text

-- The block of `__post_init__` that runs for the Ink profile.
unfoldable pub check_ink_profile : IssuancePolicyArguments → ℕ → ℕ → ℕ → Result (Unit {0})
check_ink_profile a reservation cumulative seconds =
    let risk = ink_v0f_dust_risk_policy in
    do
      deny_if (not (same_texts a.allowed_venue_ids (ink_v0f_venue_id ∷ []))) ""
          "Ink V0F issuer policy must allow exactly inkyswap-v2-ink-mainnet"
      deny_if (not (same_texts a.allowed_taker_addresses (ink_v0f_taker_address ∷ []))) ""
          "Ink V0F issuer policy must bind exactly the reviewed taker"
      deny_if (ltb risk.max_entry_atomic reservation) ""
          "Ink V0F issuer reservation ceiling exceeds the dust envelope"
      deny_if (ltb risk.max_cumulative_entry_atomic cumulative) ""
          "Ink V0F issuer cumulative ceiling exceeds the dust envelope"
      deny_if (ltb risk.max_grant_duration_s seconds) ""
          "Ink V0F issuer grant duration exceeds the dust envelope"

-- `len(ids) == 1 and ids[0] in SUPPORTED_NETWORK_IDS`.
unfoldable pub is_one_supported_network : List Text → Bool
is_one_supported_network (n ∷ []) = text_mem n supported_network_ids
is_one_supported_network _ = false

-- The constructor, which runs `__post_init__`.
unfoldable pub authority_issuance_policy :
    IssuancePolicyArguments → Result AuthorityIssuancePolicyV0
authority_issuance_policy a = do
  deny_if (not (fullmatch portable_re a.root_id) || ltb 64 (length a.root_id)) "root_id"
      "non-portable identity"
  deny_if (not (text_eq a.repository_identity canonical_repository_identity)) ""
      "repository_identity must be CipherCuttle/QntySpot"
  validate_repository_identity a.repository_identity "repository_identity"
  deny_if (ltb (level_number human_signed_execution) (level_number a.maximum_issuable_level)) ""
      "maximum issuer authority exceeds HUMAN_SIGNED_EXECUTION"
  deny_if (not (is_one_supported_network a.allowed_network_ids)) ""
      "allowed_network_ids must name exactly one supported issuance profile"
  non_empty_scopes a.allowed_network_ids "allowed_network_ids"
  non_empty_scopes a.allowed_taker_addresses "allowed_taker_addresses"
  non_empty_scopes a.allowed_venue_ids "allowed_venue_ids"
  reservation ← positive a.max_reservation_atomic "max_reservation_atomic"
  cumulative ← positive a.max_cumulative_atomic "max_cumulative_atomic"
  deny_if (ltb max_uint256 reservation || ltb max_uint256 cumulative) ""
      "capital ceiling exceeds uint256"
  deny_if (ltb cumulative reservation) "" "issuance per-action ceiling exceeds cumulative ceiling"
  seconds ← positive a.max_grant_duration_s "max_grant_duration_s"
  deny_if (ltb max_grant_duration_s seconds) "" "grant duration ceiling exceeds 3600 seconds"
  when (same_texts a.allowed_network_ids (ink_v0f_network_id ∷ []))
      (check_ink_profile a reservation cumulative seconds)
  deny_if (not (text_eq a.schema issuance_policy_schema)) "" "unknown issuance policy schema"
  ok (record {
    root_id = a.root_id;
    repository_identity = a.repository_identity;
    maximum_issuable_level = a.maximum_issuable_level;
    allowed_network_ids = a.allowed_network_ids;
    allowed_taker_addresses = a.allowed_taker_addresses;
    allowed_venue_ids = a.allowed_venue_ids;
    max_reservation_atomic = reservation;
    max_cumulative_atomic = cumulative;
    max_grant_duration_s = seconds;
    schema = a.schema;
  })

-- `sorted(…)` of texts, as a JSON list.
unfoldable pub insert_sorted : Text → List Text → List Text
insert_sorted s [] = s ∷ []
insert_sorted s (t ∷ ts) =
    let later = t ∷ insert_sorted s ts in if text_lt t s then later else s ∷ t ∷ ts

unfoldable pub sorted : List Text → List Text
unfolding insert_sorted
sorted [] = []
sorted (t ∷ ts) = insert_sorted t (sorted ts)

unfoldable pub text_items : List Text → Items
text_items [] = nil
text_items (t ∷ ts) = cons (str t) (text_items ts)

-- `AuthorityIssuancePolicyV0.canonical_object` and `policy_digest`.
unfoldable pub issuance_policy_object : AuthorityIssuancePolicyV0 → Value
unfolding sorted text_items
issuance_policy_object p = obj (
    entry "allowed_network_ids" (arr (text_items (sorted p.allowed_network_ids))) (
      entry "allowed_taker_addresses" (arr (text_items (sorted p.allowed_taker_addresses))) (
        entry "allowed_venue_ids" (arr (text_items (sorted p.allowed_venue_ids))) (
          entry "max_cumulative_atomic" (str (decimal p.max_cumulative_atomic)) (
            entry "max_grant_duration_s" (int (pos p.max_grant_duration_s)) (
              entry "max_reservation_atomic" (str (decimal p.max_reservation_atomic)) (
                entry "maximum_issuable_level" (int (pos (level_number p.maximum_issuable_level))) (
                  entry "repository_identity" (str p.repository_identity)
                    (entry "root_id" (str p.root_id) (entry "schema" (str p.schema) end))))))))))

unfoldable pub issuance_policy_digest : AuthorityIssuancePolicyV0 → Text
issuance_policy_digest p = digest_object (issuance_policy_object p)
