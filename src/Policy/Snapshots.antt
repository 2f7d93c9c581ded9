-- ===== src/Policy/Snapshots.antt =====
-- The snapshots of src/qnty_authority_root/policy.py.
use qnty_authority_root.Prelude.{◌≡◌, not, ltb, leb, pos, true}
use qnty_authority_root.Errors.{ok, >>=-elim, raise_if-eq-ok, authority_root_error}
use qnty_authority_root.Json.Values.{int, str}
use qnty_authority_root.Json.Access.{is_text}
use qnty_authority_root.Contract.Checks.{
  portable, digest, commit, label, address, positive_int, non_negative_int, atomic, refuse_if,
  assert_exact_scope,
}
use qnty_authority_root.Contract.Kept.{
  portable-eq-ok, digest-eq-ok, commit-eq-ok, label-eq-ok, address-eq-ok, positive_int-eq-ok,
  non_negative_int-eq-ok, atomic-eq-ok, is_text-eq, not-eq-false,
}
use qnty_authority_root.Contract.PolicyRef.{
  AuthorityPolicyRefV0, authority_policy_ref, authority_policy_schema,
}
use qnty_authority_root.Policy.Checks.{validate_repository_identity}
use qnty_authority_root.Policy.Request.{
  AuthorityIssuanceRequestV0, authority_issuance_request, issued_at, policy_ref_arguments,
  snapshot_issuance_request,
}

authority_policy_ref-kept :
    (a b : AuthorityPolicyRefV0) → authority_policy_ref (policy_ref_arguments a) ≡ ok b → b ≡ a
unfolding authority_policy_ref
authority_policy_ref-kept a b h =
    >>=-elim (portable (str a.authority_root_id) "authority_root_id") _ h λ root is_root h.
      >>=-elim (commit (str a.permitted_repository_commit) "permitted_repository_commit") _ h
        λ repository is_commit h.
          >>=-elim (assert_exact_scope repository "permitted_repository_commit") _ h λ _ _ h.
            >>=-elim
              (digest (str a.permitted_implementation_digest) "permitted_implementation_digest") _ h
              λ implementation is_digest h.
                >>=-elim (assert_exact_scope implementation "permitted_implementation_digest") _ h
                  λ _ _ h.
                    >>=-elim (label (str a.permitted_network_id) "permitted_network_id") _ h
                      λ network is_network h.
                        >>=-elim (assert_exact_scope network "permitted_network_id") _ h λ _ _ h.
                          >>=-elim
                            (address (str a.permitted_taker_address) "permitted_taker_address") _ h
                            λ taker is_taker h.
                              >>=-elim (assert_exact_scope taker "permitted_taker_address") _ h
                                λ _ _ h.
                                  >>=-elim
                                    (portable (str a.permitted_venue_id) "permitted_venue_id") _ h
                                    λ venue is_venue h.
                                      >>=-elim (assert_exact_scope venue "permitted_venue_id") _ h
                                        λ _ _ h.
                                          >>=-elim
                                            (atomic (pos a.max_reservation_atomic)
                                              "max_reservation_atomic" true)
                                            _ h
                                            λ reservation is_reservation h.
                                              >>=-elim
                                                (atomic (pos a.max_cumulative_atomic)
                                                  "max_cumulative_atomic" true)
                                                _ h
                                                λ cumulative is_cumulative h.
                                                  >>=-elim
                                                    (refuse_if (ltb cumulative reservation) ""
                                                      "max_reservation must not exceed max_cumulative")
                                                    _ h
                                                    λ _ _ h.
                                                      >>=-elim
                                                        (non_negative_int
                                                          (int (pos a.not_before_epoch_s))
                                                          "not_before_epoch_s")
                                                        _ h
                                                        λ not_before is_before h.
                                                          >>=-elim
                                                            (positive_int
                                                            (int (pos a.not_after_epoch_s))
                                                            "not_after_epoch_s")
                                                            _ h
                                                            λ not_after is_after h.
                                                            >>=-elim
                                                            (refuse_if (leb not_after not_before) ""
                                                            "an authority grant must expire after it begins")
                                                            _ h
                                                            λ _ _ h.
                                                            >>=-elim
                                                            (refuse_if
                                                            (not (
                                                            is_text authority_policy_schema
                                                            (str a.schema)))
                                                            "" "unknown authority policy schema")
                                                            _ h
                                                            λ _ known h.
                                                            let e1 =
                                                            portable-eq-ok a.authority_root_id
                                                            "authority_root_id" is_root in
                                                            let e2 =
                                                            commit-eq-ok
                                                            a.permitted_repository_commit
                                                            "permitted_repository_commit"
                                                            is_commit in
                                                            let e3 =
                                                            digest-eq-ok
                                                            a.permitted_implementation_digest
                                                            "permitted_implementation_digest"
                                                            is_digest in
                                                            let e4 =
                                                            label-eq-ok a.permitted_network_id
                                                            "permitted_network_id" is_network in
                                                            let e5 =
                                                            address-eq-ok a.permitted_taker_address
                                                            "permitted_taker_address" is_taker in
                                                            let e6 =
                                                            portable-eq-ok a.permitted_venue_id
                                                            "permitted_venue_id" is_venue in
                                                            let e7 =
                                                            atomic-eq-ok a.max_reservation_atomic
                                                            "max_reservation_atomic"
                                                            is_reservation in
                                                            let e8 =
                                                            atomic-eq-ok a.max_cumulative_atomic
                                                            "max_cumulative_atomic" is_cumulative in
                                                            let e9 =
                                                            non_negative_int-eq-ok
                                                            a.not_before_epoch_s
                                                            "not_before_epoch_s" is_before in
                                                            let e10 =
                                                            positive_int-eq-ok a.not_after_epoch_s
                                                            "not_after_epoch_s" is_after in
                                                            let test =
                                                            raise_if-eq-ok
                                                            (not (
                                                            is_text authority_policy_schema
                                                            (str a.schema)))
                                                            authority_root_error ""
                                                            "unknown authority policy schema"
                                                            known in
                                                            let e11 =
                                                            is_text-eq authority_policy_schema
                                                            a.schema (not-eq-false _ test) in
                                                            cc

-- The snapshot of a request, where it is taken, is the request itself.
pub snapshot_issuance_request-kept :
    (request snapshot : AuthorityIssuanceRequestV0)
    → snapshot_issuance_request request ≡ ok snapshot
    → snapshot ≡ request
unfolding snapshot_issuance_request authority_issuance_request issued_at
snapshot_issuance_request-kept request snapshot h =
    >>=-elim (authority_policy_ref (policy_ref_arguments request.authority_policy)) _ h
      λ authority taken h.
        >>=-elim (validate_repository_identity request.repository_identity "repository_identity") _
          h
          λ _ _ h. let e = authority_policy_ref-kept request.authority_policy authority taken in cc
