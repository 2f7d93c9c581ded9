-- ===== src/Binding.antt =====
-- src/qnty_authority_root/ink_v0f_binding.py: the reviewed tuple of the current Ink V0F grant.
pub mod Exact
pub mod Digests
use qnty_authority_root.Prelude.{
  ℕ, Bool, not, ◌||◌, Text, Bytes, String, codes, pos, leb, ltb, ◌==◌, text_eq,
}
use qnty_authority_root.Errors.{Result, ok, raise_if, ◌>>=◌, ◌>>◌, issuance_policy_error}
use qnty_authority_root.Decimal.{decimal}
use qnty_authority_root.Json.Values.{Value, int, str, obj, end}
use qnty_authority_root.Json.Access.{entry}
use qnty_authority_root.Canon.{canonical_json_bytes, digest_object}
use qnty_authority_root.Contract.PolicyRef.{
  AuthorityLevel, AuthorityPolicyRefV0, level_number, human_signed_execution,
}
use qnty_authority_root.Risk.{
  ink_v0f_network_id, ink_v0f_venue_id, ink_v0f_max_entry_atomic,
  ink_v0f_max_cumulative_entry_atomic, ink_v0f_max_grant_duration_s,
  ink_v0f_dust_risk_policy_digest, duration,
}

unfoldable pub ink_v0f_grant_preparation_schema : Text
ink_v0f_grant_preparation_schema = codes "qnty.authority_root.ink_v0f_level3_grant_preparation.v10"

unfoldable pub ink_v0f_authority_root_id : Text
ink_v0f_authority_root_id = codes "qnty-authority-root-v0"

unfoldable pub ink_v0f_repository_identity : Text
ink_v0f_repository_identity = codes "CipherCuttle/QntySpot"

unfoldable pub ink_v0f_qntyspot_commit : Text
ink_v0f_qntyspot_commit = codes "c0049f20accffe50c1995a1ad68e587daa130c0d"

unfoldable pub ink_v0f_qntyspot_implementation_digest : Text
ink_v0f_qntyspot_implementation_digest =
    codes "89c4227b1476905c54702d9dd90dc7d0cafdd3852f84820fe50aa59a7a32e244"

unfoldable pub ink_v0f_taker_address : Text
ink_v0f_taker_address = codes "0x3e604be3293d930069d0805e85379e0ca5fa01cb"

unfoldable pub ink_v0f_grant_preparation_digest : Text
ink_v0f_grant_preparation_digest =
    codes "c963031978507d37bdb6d250afe4e911699c4e561811608a677b88cd3d990247"

pub record InkV0FGrantPreparationV10 : Type 0 where
  pub authority_root_id : Text
  pub repository_identity : Text
  pub permitted_repository_commit : Text
  pub permitted_implementation_digest : Text
  pub permitted_network_id : Text
  pub permitted_taker_address : Text
  pub permitted_venue_id : Text
  pub maximum_issuable_level : AuthorityLevel
  pub max_reservation_atomic : ℕ
  pub max_cumulative_atomic : ℕ
  pub max_grant_duration_s : ℕ
  pub risk_policy_digest : Text
  pub schema : Text

-- `INK_V0F_GRANT_PREPARATION`: the defaults of the fields.
abbrev pub ink_v0f_grant_preparation : InkV0FGrantPreparationV10
ink_v0f_grant_preparation = record {
  authority_root_id = ink_v0f_authority_root_id;
  repository_identity = ink_v0f_repository_identity;
  permitted_repository_commit = ink_v0f_qntyspot_commit;
  permitted_implementation_digest = ink_v0f_qntyspot_implementation_digest;
  permitted_network_id = ink_v0f_network_id;
  permitted_taker_address = ink_v0f_taker_address;
  permitted_venue_id = ink_v0f_venue_id;
  maximum_issuable_level = human_signed_execution;
  max_reservation_atomic = ink_v0f_max_entry_atomic;
  max_cumulative_atomic = ink_v0f_max_cumulative_entry_atomic;
  max_grant_duration_s = ink_v0f_max_grant_duration_s;
  risk_policy_digest = ink_v0f_dust_risk_policy_digest;
  schema = ink_v0f_grant_preparation_schema;
}

abbrev refuse_if : Bool → String → String → Result (Unit {0})
refuse_if test field message = raise_if test issuance_policy_error field message

-- One round of the loops: a field that must equal its frozen or reviewed value.
unfoldable pub same_text : String → String → Text → Text → Result (Unit {0})
same_text message field actual expected = refuse_if (not (text_eq actual expected)) field message

unfoldable pub same_number : String → String → ℕ → ℕ → Result (Unit {0})
same_number message field actual expected = refuse_if (not (actual == expected)) field message

abbrev frozen : String
frozen = "Ink V0F grant preparation is frozen"

-- The constructor: `__post_init__` is the loop over `expected`.
unfoldable pub ink_v0f_grant_preparation_v10 :
    InkV0FGrantPreparationV10 → Result InkV0FGrantPreparationV10
ink_v0f_grant_preparation_v10 p =
    let e = ink_v0f_grant_preparation in
    do
      same_text frozen "authority_root_id" p.authority_root_id e.authority_root_id
      same_text frozen "repository_identity" p.repository_identity e.repository_identity
      same_text frozen "permitted_repository_commit" p.permitted_repository_commit
          e.permitted_repository_commit
      same_text frozen "permitted_implementation_digest" p.permitted_implementation_digest
          e.permitted_implementation_digest
      same_text frozen "permitted_network_id" p.permitted_network_id e.permitted_network_id
      same_text frozen "permitted_taker_address" p.permitted_taker_address e.permitted_taker_address
      same_text frozen "permitted_venue_id" p.permitted_venue_id e.permitted_venue_id
      same_number frozen "maximum_issuable_level" (level_number p.maximum_issuable_level)
          (level_number e.maximum_issuable_level)
      same_number frozen "max_reservation_atomic" p.max_reservation_atomic e.max_reservation_atomic
      same_number frozen "max_cumulative_atomic" p.max_cumulative_atomic e.max_cumulative_atomic
      same_number frozen "max_grant_duration_s" p.max_grant_duration_s e.max_grant_duration_s
      same_text frozen "risk_policy_digest" p.risk_policy_digest e.risk_policy_digest
      same_text frozen "schema" p.schema e.schema
      ok p

-- `canonical_object`, `serialized` and `preparation_digest`.
unfoldable pub preparation_object : InkV0FGrantPreparationV10 → Value
preparation_object p = obj (
    entry "authority_root_id" (str p.authority_root_id) (
      entry "max_cumulative_atomic" (str (decimal p.max_cumulative_atomic)) (
        entry "max_grant_duration_s" (int (pos p.max_grant_duration_s)) (
          entry "max_reservation_atomic" (str (decimal p.max_reservation_atomic)) (
            entry "maximum_issuable_level" (int (pos (level_number p.maximum_issuable_level))) (
              entry "permitted_implementation_digest" (str p.permitted_implementation_digest) (
                entry "permitted_network_id" (str p.permitted_network_id) (
                  entry "permitted_repository_commit" (str p.permitted_repository_commit) (
                    entry "permitted_taker_address" (str p.permitted_taker_address) (
                      entry "permitted_venue_id" (str p.permitted_venue_id) (
                        entry "repository_identity" (str p.repository_identity) (
                          entry "risk_policy_digest" (str p.risk_policy_digest)
                            (entry "schema" (str p.schema) end)))))))))))))

unfoldable pub preparation_serialized : InkV0FGrantPreparationV10 → Bytes
preparation_serialized p = canonical_json_bytes (preparation_object p)

unfoldable pub preparation_digest : InkV0FGrantPreparationV10 → Text
preparation_digest p = digest_object (preparation_object p)

abbrev differs : String
differs = "differs from the reviewed grant preparation"

unfoldable pub assert_ink_v0f_exact_authority_binding : AuthorityPolicyRefV0 → Result (Unit {0})
assert_ink_v0f_exact_authority_binding a =
    let prep = ink_v0f_grant_preparation in
    do
      same_text differs "authority_root_id" a.authority_root_id prep.authority_root_id
      same_number differs "granted_level" (level_number a.granted_level)
          (level_number prep.maximum_issuable_level)
      same_text differs "permitted_repository_commit" a.permitted_repository_commit
          prep.permitted_repository_commit
      same_text differs "permitted_implementation_digest" a.permitted_implementation_digest
          prep.permitted_implementation_digest
      same_text differs "permitted_network_id" a.permitted_network_id prep.permitted_network_id
      same_text differs "permitted_taker_address" a.permitted_taker_address
          prep.permitted_taker_address
      same_text differs "permitted_venue_id" a.permitted_venue_id prep.permitted_venue_id
      same_number differs "max_reservation_atomic" a.max_reservation_atomic
          prep.max_reservation_atomic
      same_number differs "max_cumulative_atomic" a.max_cumulative_atomic prep.max_cumulative_atomic
      refuse_if
          (leb a.not_after_epoch_s a.not_before_epoch_s
            || ltb prep.max_grant_duration_s (duration a))
          "" "Ink V0F grant duration differs from the reviewed duration ceiling"
