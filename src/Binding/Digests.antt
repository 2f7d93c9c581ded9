-- ===== src/Binding/Digests.antt =====
-- The two checks that run when the package is imported: the frozen objects have the digests that
-- risk.py and ink_v0f_binding.py pin.
use qnty_authority_root.Prelude.{◌≡◌, refl}
use qnty_authority_root.Sha256.{sha256, hex, final_state, state_bytes}
use qnty_authority_root.Json.Print.{dumps}
use qnty_authority_root.Json.Escape.{escape, escape_all, print_string}
use qnty_authority_root.Utf8.{encode}
use qnty_authority_root.Decimal.{decimal}
use qnty_authority_root.Canon.{canonical_json_str, canonical_json_bytes, sha256_hex, digest_object}
use qnty_authority_root.Risk.{
  ink_v0f_dust_risk_policy, risk_object, risk_policy_digest, ink_v0f_dust_risk_policy_digest,
  ink_v0f_risk_schema, qntyspot_repository_identity, ink_v0f_network_id, ink_v0f_venue_id,
  ink_v0f_pool_address, ink_v0f_base_instrument_id, ink_v0f_quote_instrument_id,
}
use qnty_authority_root.Binding.{
  ink_v0f_grant_preparation, preparation_object, preparation_digest,
  ink_v0f_grant_preparation_digest, ink_v0f_grant_preparation_schema, ink_v0f_authority_root_id,
  ink_v0f_repository_identity, ink_v0f_qntyspot_commit, ink_v0f_qntyspot_implementation_digest,
  ink_v0f_taker_address,
}

risk_digest_pinned : risk_policy_digest ink_v0f_dust_risk_policy ≡ ink_v0f_dust_risk_policy_digest
unfolding risk_policy_digest digest_object sha256_hex hex sha256 final_state state_bytes
    canonical_json_bytes canonical_json_str encode dumps print_string escape_all escape decimal
    risk_object ink_v0f_dust_risk_policy ink_v0f_dust_risk_policy_digest ink_v0f_risk_schema
    qntyspot_repository_identity ink_v0f_network_id ink_v0f_venue_id ink_v0f_pool_address
    ink_v0f_base_instrument_id ink_v0f_quote_instrument_id
risk_digest_pinned = refl

preparation_digest_pinned :
    preparation_digest ink_v0f_grant_preparation ≡ ink_v0f_grant_preparation_digest
unfolding preparation_digest digest_object sha256_hex hex sha256 final_state state_bytes
    canonical_json_bytes canonical_json_str encode dumps print_string escape_all escape decimal
    preparation_object ink_v0f_grant_preparation_digest ink_v0f_grant_preparation_schema
    ink_v0f_authority_root_id ink_v0f_repository_identity ink_v0f_qntyspot_commit
    ink_v0f_qntyspot_implementation_digest ink_v0f_taker_address ink_v0f_dust_risk_policy_digest
    ink_v0f_network_id ink_v0f_venue_id
preparation_digest_pinned = refl
