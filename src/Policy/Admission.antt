-- ===== src/Policy/Admission.antt =====
-- What `assert_issuance_request_admissible` of src/qnty_authority_root/policy.py admits.
use qnty_authority_root.Prelude.{
  ◌<◌, ◌≤◌, ◌≡◌, ◌≢◌, refl, Bool, true, false, not, ◌||◌, Text, String, text_eq, text_eq_sound,
  text_eq_refl, text_mem, IsIn, text_mem-IsIn, leb, ltb, arith,
}
use qnty_authority_root.Errors.{
  Result, ok, when, ◌>>◌, >>=-elim, raise_if-eq-ok, issuance_policy_error,
}
use qnty_authority_root.Contract.PolicyRef.{
  AuthorityPolicyRefV0, level_number, human_signed_execution,
}
use qnty_authority_root.Risk.{
  duration, ink_v0f_network_id, assert_ink_v0f_authority_policy_admissible,
}
use qnty_authority_root.Binding.{assert_ink_v0f_exact_authority_binding}
use qnty_authority_root.Binding.Exact.{IsReviewed, exact_binding_iff}
use qnty_authority_root.Policy.{
  AuthorityIssuancePolicyV0, forbidden_mainnet_network_id, supported_network_ids,
  max_grant_duration_s,
}
use qnty_authority_root.Policy.Checks.{deny_if}
use qnty_authority_root.Policy.Request.{
  AuthorityIssuanceRequestV0, assert_issuance_request_admissible,
}

-- What is admitted stays within the issuer's policy and within the hard limits of the code.
abbrev pub IsWithin : AuthorityIssuancePolicyV0 → AuthorityIssuanceRequestV0 → Type 0
IsWithin policy request =
    let a = request.authority_policy in
    (request.repository_identity ≡ policy.repository_identity)
    × (a.authority_root_id ≡ policy.root_id)
    × (level_number a.granted_level ≤ level_number policy.maximum_issuable_level)
    × (level_number a.granted_level ≤ level_number human_signed_execution)
    × (a.permitted_network_id ≢ forbidden_mainnet_network_id)
    × IsIn a.permitted_network_id supported_network_ids
    × IsIn a.permitted_network_id policy.allowed_network_ids
    × IsIn a.permitted_taker_address policy.allowed_taker_addresses
    × IsIn a.permitted_venue_id policy.allowed_venue_ids
    × (a.max_reservation_atomic ≤ policy.max_reservation_atomic)
    × (a.max_cumulative_atomic ≤ policy.max_cumulative_atomic)
    × (a.permitted_network_id ≡ ink_v0f_network_id → IsReviewed a)
    × (duration a ≤ max_grant_duration_s)
    × (duration a ≤ policy.max_grant_duration_s)
    × (a.not_before_epoch_s ≤ request.issued_at_epoch_s)
    × (request.issued_at_epoch_s < a.not_after_epoch_s)

deny-unless :
    (b : Bool) (message : String) (k : Result (Unit {0}))
    → (deny_if (not b) "" message >> k) ≡ ok tt
    → (b ≡ true) × (k ≡ ok tt)
deny-unless true message k h = (refl, h)
deny-unless false message k h = absurd cc

deny-if :
    (b : Bool) (message : String) (k : Result (Unit {0}))
    → (deny_if b "" message >> k) ≡ ok tt
    → (b ≡ false) × (k ≡ ok tt)
deny-if true message k h = absurd cc
deny-if false message k h = (refl, h)

when-then :
    (b : Bool) (m k : Result (Unit {0}))
    → (when b m >> k) ≡ ok tt
    → (b ≡ true → m ≡ ok tt) × (k ≡ ok tt)
when-then true m k h = >>=-elim m _ h λ u e h. ((λ _. e), h)
when-then false m k h = ((λ e. absurd cc), h)

exact_of :
    (a : AuthorityPolicyRefV0) (repository : Text)
    → (assert_ink_v0f_authority_policy_admissible a repository
        >> assert_ink_v0f_exact_authority_binding a)
      ≡ ok tt
    → IsReviewed a
exact_of a repository h =
    >>=-elim (assert_ink_v0f_authority_policy_admissible a repository) _ h
      λ u _ h. (exact_binding_iff a).0 h

-- A request that is admitted is within the policy: for its repository and its root; at a level that
-- is neither above the policy's maximum nor above HUMAN_SIGNED_EXECUTION; not for evm:4663, and on
-- a network, for a taker and at a venue that the policy lists; under both ceilings; exactly the
-- reviewed one on the Ink network; no longer than both maximal durations; and issued inside of its
-- interval.
pub admissible-IsWithin :
    (policy : AuthorityIssuancePolicyV0) (request : AuthorityIssuanceRequestV0)
    → assert_issuance_request_admissible policy request ≡ ok tt
    → IsWithin policy request
unfolding assert_issuance_request_admissible
admissible-IsWithin policy request h =
    let a = request.authority_policy in
    let (repository, h) =
      deny-unless (text_eq request.repository_identity policy.repository_identity) _ _ h in
    let (root, h) = deny-unless (text_eq a.authority_root_id policy.root_id) _ _ h in
    let (level, h) =
      deny-if (ltb (level_number policy.maximum_issuable_level) (level_number a.granted_level)) _ _
        h in
    let (human, h) =
      deny-if (ltb (level_number human_signed_execution) (level_number a.granted_level)) _ _ h in
    let (mainnet, h) =
      deny-if (text_eq a.permitted_network_id forbidden_mainnet_network_id) _ _ h in
    let (supported, h) =
      deny-unless (text_mem a.permitted_network_id supported_network_ids) _ _ h in
    let (network, h) =
      deny-unless (text_mem a.permitted_network_id policy.allowed_network_ids) _ _ h in
    let (taker, h) =
      deny-unless (text_mem a.permitted_taker_address policy.allowed_taker_addresses) _ _ h in
    let (venue, h) = deny-unless (text_mem a.permitted_venue_id policy.allowed_venue_ids) _ _ h in
    let (reservation, h) =
      deny-if (ltb policy.max_reservation_atomic a.max_reservation_atomic) _ _ h in
    let (cumulative, h) =
      deny-if (ltb policy.max_cumulative_atomic a.max_cumulative_atomic) _ _ h in
    let (ink, h) =
      when-then (text_eq a.permitted_network_id ink_v0f_network_id)
        (assert_ink_v0f_authority_policy_admissible a request.repository_identity
          >> assert_ink_v0f_exact_authority_binding a)
        _ h in
    let (positive, h) = deny-if (leb a.not_after_epoch_s a.not_before_epoch_s) _ _ h in
    let (short, h) =
      deny-if
        (ltb max_grant_duration_s (duration a) || ltb policy.max_grant_duration_s (duration a)) _ _
        h in
    let inside =
      raise_if-eq-ok _ issuance_policy_error "" "issued-at time must be inside grant interval" h in
    (
      text_eq_sound _ _ repository,
      text_eq_sound _ _ root,
      ground (arith, level),
      ground (arith, human),
      (λ e. ground (arith, e, mainnet, text_eq_refl forbidden_mainnet_network_id)),
      text_mem-IsIn _ _ supported,
      text_mem-IsIn _ _ network,
      text_mem-IsIn _ _ taker,
      text_mem-IsIn _ _ venue,
      ground (arith, reservation),
      ground (arith, cumulative),
      (λ e. exact_of a request.repository_identity (ink (rw e (text_eq_refl ink_v0f_network_id)))),
      ground (arith, short),
      ground (arith, short),
      ground (arith, inside),
      ground (arith, inside),
    )
