-- ===== src/Scripts/Epoch6.antt =====
-- scripts/issue_ink_v0f_epoch6_successor_grant.py: the constants, the scope of a receipt, and the
-- validators of historical requests.
pub mod History
pub mod Bundle
pub mod Issue
pub mod Kept
pub mod Continues
pub mod Succession
pub mod Scope
pub mod Published
pub mod Reissue
pub mod Exports
pub mod Committed
use qnty_authority_root.Prelude.{
  ℕ, ◌+◌, ◌^◌, Bool, true, false, not, ◌&&◌, ◌||◌, Option, none, some, Text, String, codes, pos,
  leb, ◌==◌, if◌then◌else◌, text_eq,
}
use qnty_authority_root.Errors.{Result, ok, err, raise, raise_if, ◌>>=◌, ◌>>◌, runtime_error}
use qnty_authority_root.Contract.PolicyRef.{AuthorityPolicyRefV0, level_number}
use qnty_authority_root.Contract.Receipt.{AuthorityGrantReceiptV0}
use qnty_authority_root.Binding.{ink_v0f_qntyspot_commit, ink_v0f_qntyspot_implementation_digest}
use qnty_authority_root.Policy.Request.{AuthorityIssuanceRequestV0}
use qnty_authority_root.Issuer.Validate.{policy_eq}
use qnty_authority_root.InkGrant.{ink_v0f_request_id}
use qnty_authority_root.Scripts.Trust.{expected_root_id, expected_repository}

abbrev pub authority_epoch : ℕ
authority_epoch = 6

abbrev pub minimum_authority_epoch : ℕ
minimum_authority_epoch = 1

abbrev pub trust_config_version : ℕ
trust_config_version = 1

abbrev pub duration_s : ℕ
duration_s = 900

unfoldable pub expected_taker : Text
expected_taker = codes "0x3e604be3293d930069d0805e85379e0ca5fa01cb"

unfoldable pub expected_network : Text
expected_network = codes "evm:57073"

unfoldable pub expected_venue : Text
expected_venue = codes "inkyswap-v2-ink-mainnet"

abbrev pub expected_atomic : ℕ
expected_atomic = 1_000_000_000_000_000

unfoldable pub epoch6_relative_db : Text
epoch6_relative_db = codes "state/epoch-6/authority-root-issuance-v0-epoch-6.sqlite3"

-- `HISTORICAL_EPOCH6_SERIAL1`, without its receipt id, which nothing reads.
abbrev pub historical_serial : ℕ
historical_serial = 1

abbrev pub historical_issued_at : ℕ
historical_issued_at = 1_789_848_200

abbrev pub historical_not_after : ℕ
historical_not_after = 1_789_849_100

unfoldable pub historical_commit : Text
historical_commit = codes "95aaa869f490474968d16f51bfac5ad939a3a074"

unfoldable pub historical_implementation : Text
historical_implementation = codes "b841661bde3b438e15f8709d82feb39de72ba96802c921837eb55a521d80811f"

abbrev pub refuse_if : Bool → String → Result (Unit {0})
refuse_if test message = raise_if test runtime_error "" message

pub data ScopeKind : Type 0 where
  current : ScopeKind
  historical_serial1 : ScopeKind
  historical_expired : ScopeKind

-- The fields of a receipt that every epoch-6 grant shares.
unfoldable pub assert_frame : AuthorityGrantReceiptV0 → Result (Unit {0})
assert_frame r =
    let p = r.authority_policy in
    do
      refuse_if (not (r.authority_epoch == authority_epoch)) "receipt authority epoch mismatch"
      refuse_if (not (p.not_before_epoch_s == r.issued_at_epoch_s)) "receipt not-before mismatch"
      refuse_if (not (p.not_after_epoch_s == r.issued_at_epoch_s + duration_s))
          "receipt duration mismatch"
      refuse_if (not (text_eq p.permitted_taker_address expected_taker)) "receipt taker mismatch"
      refuse_if (not (text_eq p.permitted_network_id expected_network)) "receipt network mismatch"
      refuse_if (not (text_eq p.permitted_venue_id expected_venue)) "receipt venue mismatch"
      refuse_if
          (not (p.max_reservation_atomic == expected_atomic)
            || not (p.max_cumulative_atomic == expected_atomic))
          "receipt capital ceiling mismatch"
      refuse_if (not (level_number p.granted_level == 3)) "receipt authority level mismatch"

abbrev pub is_current : AuthorityPolicyRefV0 → Bool
is_current p =
    text_eq p.permitted_repository_commit ink_v0f_qntyspot_commit
    && text_eq p.permitted_implementation_digest ink_v0f_qntyspot_implementation_digest

abbrev pub is_historical : AuthorityGrantReceiptV0 → Bool
is_historical r =
    let p = r.authority_policy in
    r.serial == historical_serial
    && (r.issued_at_epoch_s == historical_issued_at
        && (p.not_after_epoch_s == historical_not_after
            && (text_eq p.permitted_repository_commit historical_commit
                && text_eq p.permitted_implementation_digest historical_implementation)))

abbrev pub is_expired_before : Option ℕ → AuthorityPolicyRefV0 → Bool
is_expired_before none p = false
is_expired_before (some t) p = leb p.not_after_epoch_s t

unfoldable pub scope_kind : Bool → Option ℕ → AuthorityGrantReceiptV0 → Result ScopeKind
scope_kind allow_serial1 expired_before r =
    if is_current r.authority_policy
    then ok current
    else if allow_serial1 && is_historical r
    then ok historical_serial1
    else if is_expired_before expired_before r.authority_policy
    then ok historical_expired
    else if not (text_eq r.authority_policy.permitted_repository_commit ink_v0f_qntyspot_commit)
    then raise runtime_error "" "receipt QntySpot commit mismatch"
    else raise runtime_error "" "receipt implementation digest mismatch"

-- `_assert_scope`.
unfoldable pub assert_scope : Bool → Option ℕ → AuthorityGrantReceiptV0 → Result ScopeKind
assert_scope allow_serial1 expired_before r = do
  assert_frame r
  scope_kind allow_serial1 expired_before r

-- What both validators ask of a policy.
abbrev has_expected_scope : AuthorityPolicyRefV0 → Bool
has_expected_scope p =
    text_eq p.permitted_taker_address expected_taker
    && (text_eq p.permitted_network_id expected_network
        && (text_eq p.permitted_venue_id expected_venue
            && (p.max_reservation_atomic == expected_atomic
                && (p.max_cumulative_atomic == expected_atomic
                    && level_number p.granted_level == 3))))

-- `_allow_exact_historical_epoch6_request`.
unfoldable pub allow_exact_historical :
    Text → AuthorityIssuanceRequestV0 → AuthorityGrantReceiptV0 → Bool
allow_exact_historical request_id request r =
    let p = request.authority_policy in
    text_eq request_id (codes "ink-v0f-1789848200-900")
    && (r.serial == historical_serial
        && (r.issued_at_epoch_s == historical_issued_at
            && (request.issued_at_epoch_s == historical_issued_at
                && (p.not_before_epoch_s == historical_issued_at
                    && (p.not_after_epoch_s == historical_not_after
                        && (text_eq p.permitted_repository_commit historical_commit
                            && (text_eq p.permitted_implementation_digest historical_implementation
                                && has_expected_scope p)))))))

abbrev expired_request :
    ℕ → Text → AuthorityIssuanceRequestV0 → AuthorityGrantReceiptV0 → Result Text → Bool
expired_request successor request_id request r (err e) = false
expired_request successor request_id request r (ok expected) =
    let p = request.authority_policy in
    text_eq request_id expected
    && (text_eq request.repository_identity expected_repository
        && (r.authority_epoch == authority_epoch
            && (r.issued_at_epoch_s == request.issued_at_epoch_s
                && (policy_eq r.authority_policy p
                    && (text_eq p.authority_root_id expected_root_id
                        && (p.not_before_epoch_s == request.issued_at_epoch_s
                            && (p.not_after_epoch_s == request.issued_at_epoch_s + duration_s
                                && (leb p.not_after_epoch_s successor
                                    && has_expected_scope p))))))))

-- `_allow_expired_historical_epoch6_request`.
unfoldable pub allow_expired_historical :
    ℕ → Text → AuthorityIssuanceRequestV0 → AuthorityGrantReceiptV0 → Bool
allow_expired_historical successor request_id request r =
    expired_request successor request_id request r
      (ink_v0f_request_id (pos request.issued_at_epoch_s) (pos duration_s))
