-- ===== src/Contract/PolicyRef.antt =====
-- `AuthorityLevel` and `AuthorityPolicyRefV0` of src/qnty_authority_root/contract.py, and
-- `_authority_policy_from_object`.
use qnty_authority_root.Prelude.{
  ℕ, true, not, ◌&&◌, List, [], ◌∷◌, Text, codes, ℤ, pos, negsuc, ltb, leb, ◌==◌, if◌then◌else◌,
}
use qnty_authority_root.Errors.{Result, ok, raise, ◌>>=◌, ◌>>◌, value_error, wrap_value_error}
use qnty_authority_root.Decimal.{decimal}
use qnty_authority_root.Json.Values.{Value, int, str, obj, Fields, end}
use qnty_authority_root.Json.Access.{entry, item, has_exactly, is_text}
use qnty_authority_root.Canon.{digest_object}
use qnty_authority_root.Contract.Checks.{
  refuse, refuse_if, portable, digest, commit, label, address, positive_int, non_negative_int,
  atomic, canonical_atomic, assert_exact_scope,
}

pub data AuthorityLevel : Type 0 where
  shadow : AuthorityLevel
  reconcile_only : AuthorityLevel
  submit_exact_signed_bytes : AuthorityLevel
  human_signed_execution : AuthorityLevel
  autonomous_bounded_signer : AuthorityLevel

-- `int(level)`.
abbrev pub level_number : AuthorityLevel → ℕ
level_number shadow = 0
level_number reconcile_only = 1
level_number submit_exact_signed_bytes = 2
level_number human_signed_execution = 3
level_number autonomous_bounded_signer = 4

-- `AuthorityLevel(number)`.
unfoldable pub authority_level : ℤ → Result AuthorityLevel
authority_level (pos n) =
    if n == 0
    then ok shadow
    else if n == 1
    then ok reconcile_only
    else if n == 2
    then ok submit_exact_signed_bytes
    else if n == 3
    then ok human_signed_execution
    else if n == 4
    then ok autonomous_bounded_signer
    else raise value_error "" "not a valid AuthorityLevel"
authority_level (negsuc n) = raise value_error "" "not a valid AuthorityLevel"

unfoldable pub authority_policy_schema : Text
authority_policy_schema = codes "qntyspot.program_b.v0.authority_policy"

-- What the constructor is given. The level and the amounts are of the right type at every call; the
-- rest comes unseen out of a JSON document.
pub record PolicyArguments : Type 0 where
  pub authority_root_id : Value
  pub granted_level : AuthorityLevel
  pub permitted_repository_commit : Value
  pub permitted_implementation_digest : Value
  pub permitted_network_id : Value
  pub permitted_taker_address : Value
  pub permitted_venue_id : Value
  pub max_reservation_atomic : ℤ
  pub max_cumulative_atomic : ℤ
  pub not_before_epoch_s : Value
  pub not_after_epoch_s : Value
  pub schema : Value

-- The frozen object, once `__post_init__` has passed.
pub record AuthorityPolicyRefV0 : Type 0 where
  pub authority_root_id : Text
  pub granted_level : AuthorityLevel
  pub permitted_repository_commit : Text
  pub permitted_implementation_digest : Text
  pub permitted_network_id : Text
  pub permitted_taker_address : Text
  pub permitted_venue_id : Text
  pub max_reservation_atomic : ℕ
  pub max_cumulative_atomic : ℕ
  pub not_before_epoch_s : ℕ
  pub not_after_epoch_s : ℕ
  pub schema : Text

-- The constructor, which runs `__post_init__`.
unfoldable pub authority_policy_ref : PolicyArguments → Result AuthorityPolicyRefV0
authority_policy_ref p = do
  root ← portable p.authority_root_id "authority_root_id"
  repository_commit ← commit p.permitted_repository_commit "permitted_repository_commit"
  assert_exact_scope repository_commit "permitted_repository_commit"
  implementation ← digest p.permitted_implementation_digest "permitted_implementation_digest"
  assert_exact_scope implementation "permitted_implementation_digest"
  network ← label p.permitted_network_id "permitted_network_id"
  assert_exact_scope network "permitted_network_id"
  taker ← address p.permitted_taker_address "permitted_taker_address"
  assert_exact_scope taker "permitted_taker_address"
  venue ← portable p.permitted_venue_id "permitted_venue_id"
  assert_exact_scope venue "permitted_venue_id"
  reservation ← atomic p.max_reservation_atomic "max_reservation_atomic" true
  cumulative ← atomic p.max_cumulative_atomic "max_cumulative_atomic" true
  refuse_if (ltb cumulative reservation) "" "max_reservation must not exceed max_cumulative"
  not_before ← non_negative_int p.not_before_epoch_s "not_before_epoch_s"
  not_after ← positive_int p.not_after_epoch_s "not_after_epoch_s"
  refuse_if (leb not_after not_before) "" "an authority grant must expire after it begins"
  refuse_if (not (is_text authority_policy_schema p.schema)) "" "unknown authority policy schema"
  ok (record {
    authority_root_id = root;
    granted_level = p.granted_level;
    permitted_repository_commit = repository_commit;
    permitted_implementation_digest = implementation;
    permitted_network_id = network;
    permitted_taker_address = taker;
    permitted_venue_id = venue;
    max_reservation_atomic = reservation;
    max_cumulative_atomic = cumulative;
    not_before_epoch_s = not_before;
    not_after_epoch_s = not_after;
    schema = authority_policy_schema;
  })

-- `AuthorityPolicyRefV0.canonical_object`.
unfoldable pub policy_object : AuthorityPolicyRefV0 → Value
policy_object p = obj (
    entry "authority_root_id" (str p.authority_root_id) (
      entry "granted_level" (int (pos (level_number p.granted_level))) (
        entry "max_cumulative_atomic" (str (decimal p.max_cumulative_atomic)) (
          entry "max_reservation_atomic" (str (decimal p.max_reservation_atomic)) (
            entry "not_after_epoch_s" (int (pos p.not_after_epoch_s)) (
              entry "not_before_epoch_s" (int (pos p.not_before_epoch_s)) (
                entry "permitted_implementation_digest" (str p.permitted_implementation_digest) (
                  entry "permitted_network_id" (str p.permitted_network_id) (
                    entry "permitted_repository_commit" (str p.permitted_repository_commit) (
                      entry "permitted_taker_address" (str p.permitted_taker_address) (
                        entry "permitted_venue_id" (str p.permitted_venue_id)
                          (entry "schema" (str p.schema) end))))))))))))

unfoldable pub authority_policy_digest : AuthorityPolicyRefV0 → Text
authority_policy_digest p = digest_object (policy_object p)

unfoldable pub assert_valid_at : AuthorityPolicyRefV0 → Value → Result (Unit {0})
assert_valid_at p now_epoch_s = do
  now ← non_negative_int now_epoch_s "now_epoch_s"
  refuse_if (not (leb p.not_before_epoch_s now && ltb now p.not_after_epoch_s)) "now_epoch_s"
      "authority grant is not valid"

unfoldable pub policy_fields : List Text
policy_fields =
    codes "authority_root_id"
    ∷ codes "granted_level"
    ∷ codes "max_cumulative_atomic"
    ∷ codes "max_reservation_atomic"
    ∷ codes "not_after_epoch_s"
    ∷ codes "not_before_epoch_s"
    ∷ codes "permitted_implementation_digest"
    ∷ codes "permitted_network_id"
    ∷ codes "permitted_repository_commit"
    ∷ codes "permitted_taker_address"
    ∷ codes "permitted_venue_id"
    ∷ codes "schema"
    ∷ []

-- `type(value) is int`, at the level of a policy document.
unfoldable pub level_field : Value → Result ℤ
level_field (int n) = ok n
level_field _ = refuse "granted_level" "must be an integer"

-- The arguments as the call lists them, evaluated in that order.
unfoldable pub policy_arguments : Fields → ℤ → Result PolicyArguments
policy_arguments d number = do
  root ← item d "authority_root_id"
  level ← authority_level number
  repository_commit ← item d "permitted_repository_commit"
  implementation ← item d "permitted_implementation_digest"
  network ← item d "permitted_network_id"
  taker ← item d "permitted_taker_address"
  venue ← item d "permitted_venue_id"
  reservation ← canonical_atomic (← item d "max_reservation_atomic") "max_reservation_atomic" true
  cumulative ← canonical_atomic (← item d "max_cumulative_atomic") "max_cumulative_atomic" true
  not_before ← item d "not_before_epoch_s"
  not_after ← item d "not_after_epoch_s"
  schema ← item d "schema"
  ok (record {
    authority_root_id = root;
    granted_level = level;
    permitted_repository_commit = repository_commit;
    permitted_implementation_digest = implementation;
    permitted_network_id = network;
    permitted_taker_address = taker;
    permitted_venue_id = venue;
    max_reservation_atomic = pos reservation;
    max_cumulative_atomic = pos cumulative;
    not_before_epoch_s = not_before;
    not_after_epoch_s = not_after;
    schema = schema;
  })

unfoldable pub authority_policy_from_object : Value → Result AuthorityPolicyRefV0
authority_policy_from_object (obj d) = do
  refuse_if (not (has_exactly policy_fields d)) "" "authority policy has unknown or missing fields"
  number ← level_field (← item d "granted_level")
  wrap_value_error "malformed authority policy" (policy_arguments d number >>= authority_policy_ref)
authority_policy_from_object _ = refuse "" "authority_policy must be a JSON object"
