-- ===== src/Contract/Refusals/Policies.antt =====
-- The exceptions of the authority policy in src/qnty_authority_root/contract.py.
use qnty_authority_root.Prelude.{
  ◌≡◌, refl, Bool, true, false, not, String, leb, ltb, ℤ, pos, negsuc, arith, text_eq, text_mem,
}
use qnty_authority_root.Errors.{
  Error, ErrorClass, value_error, raise_if-eq-ok, Result, ok, err, ◌>>=◌, is_authority_root_error,
  wrap_value_error, authority_root_error,
}
use qnty_authority_root.Json.Values.{Value, obj, Fields}
use qnty_authority_root.Json.Access.{item, has_exactly, is_text}
use qnty_authority_root.Json.Total.{is_refusal}
use qnty_authority_root.Json.Total.Nested.{IsRefusal}
use qnty_authority_root.Contract.Checks.{
  refuse_if, portable, commit, digest, label, address, atomic, canonical_atomic, assert_exact_scope,
  positive_int, non_negative_int,
}
use qnty_authority_root.Contract.PolicyRef.{
  PolicyArguments, authority_level, authority_policy_schema, authority_policy_ref, policy_fields,
  level_field, policy_arguments, authority_policy_from_object,
}
use qnty_authority_root.Contract.Refusals.{
  >>=-IsRefusal, refuse_if-IsRefusal, portable-IsRefusal, digest-IsRefusal, commit-IsRefusal,
  label-IsRefusal, address-IsRefusal, positive_int-IsRefusal, non_negative_int-IsRefusal,
  atomic-IsRefusal, canonical_atomic-IsRefusal, assert_exact_scope-IsRefusal, item-IsRefusal,
  wrap_value_error-kind,
}

-- One step of a chain.
pub then_ {ℓ ℓ'} :
    {A : Type ℓ} {C : Type ℓ'} (m : Result A) (k : A → Result C)
    → IsRefusal m
    → ((a : A) → IsRefusal (k a))
    → IsRefusal (m >>= k)
then_ m k h proof = >>=-IsRefusal m k h λ a _. proof a

authority_policy_ref-IsRefusal : (p : PolicyArguments) → IsRefusal (authority_policy_ref p)
unfolding authority_policy_ref
authority_policy_ref-IsRefusal p =
    then_ (portable p.authority_root_id "authority_root_id") _ (portable-IsRefusal _ _) λ root.
      then_ (commit p.permitted_repository_commit "permitted_repository_commit") _
        (commit-IsRefusal _ _)
        λ c.
          then_ (assert_exact_scope c "permitted_repository_commit") _
            (assert_exact_scope-IsRefusal _ _)
            λ _.
              then_ (digest p.permitted_implementation_digest "permitted_implementation_digest") _
                (digest-IsRefusal _ _)
                λ i.
                  then_ (assert_exact_scope i "permitted_implementation_digest") _
                    (assert_exact_scope-IsRefusal _ _)
                    λ _.
                      then_ (label p.permitted_network_id "permitted_network_id") _
                        (label-IsRefusal _ _)
                        λ n.
                          then_ (assert_exact_scope n "permitted_network_id") _
                            (assert_exact_scope-IsRefusal _ _)
                            λ _.
                              then_ (address p.permitted_taker_address "permitted_taker_address") _
                                (address-IsRefusal _ _)
                                λ t.
                                  then_ (assert_exact_scope t "permitted_taker_address") _
                                    (assert_exact_scope-IsRefusal _ _)
                                    λ _.
                                      then_ (portable p.permitted_venue_id "permitted_venue_id") _
                                        (portable-IsRefusal _ _)
                                        λ v.
                                          then_ (assert_exact_scope v "permitted_venue_id") _
                                            (assert_exact_scope-IsRefusal _ _)
                                            λ _.
                                              then_
                                                (atomic p.max_reservation_atomic
                                                  "max_reservation_atomic" true)
                                                _ (atomic-IsRefusal _ _ _)
                                                λ r.
                                                  then_
                                                    (atomic p.max_cumulative_atomic
                                                      "max_cumulative_atomic" true)
                                                    _ (atomic-IsRefusal _ _ _)
                                                    λ c2.
                                                      then_
                                                        (refuse_if (ltb c2 r) ""
                                                          "max_reservation must not exceed max_cumulative")
                                                        _ (refuse_if-IsRefusal _ _ _)
                                                        λ _.
                                                          then_
                                                            (non_negative_int p.not_before_epoch_s
                                                            "not_before_epoch_s")
                                                            _ (non_negative_int-IsRefusal _ _)
                                                            λ nb.
                                                            then_
                                                            (positive_int p.not_after_epoch_s
                                                            "not_after_epoch_s")
                                                            _ (positive_int-IsRefusal _ _)
                                                            λ na.
                                                            then_
                                                            (refuse_if (leb na nb) ""
                                                            "an authority grant must expire after it begins")
                                                            _ (refuse_if-IsRefusal _ _ _)
                                                            λ _.
                                                            then_
                                                            (refuse_if
                                                            (not (
                                                            is_text authority_policy_schema
                                                            p.schema))
                                                            "" "unknown authority policy schema")
                                                            _ (refuse_if-IsRefusal _ _ _) λ _. tt

authority_level-IsRefusal : (n : ℤ) → IsRefusal (authority_level n)
unfolding authority_level
authority_level-IsRefusal (pos n) = ground arith
authority_level-IsRefusal (negsuc n) = refl

level_field-IsRefusal : (v : Value) → IsRefusal (level_field v)
unfolding level_field
level_field-IsRefusal (Value.int n) = tt
level_field-IsRefusal _ = refl

policy_arguments-IsRefusal :
    (d : Fields) (n : ℤ) → has_exactly policy_fields d ≡ true → IsRefusal (policy_arguments d n)
unfolding policy_arguments policy_fields text_mem text_eq
policy_arguments-IsRefusal d n has =
    then_ (item d "authority_root_id") _
      (item-IsRefusal policy_fields d "authority_root_id" has refl)
      λ root. then_ (authority_level n) _ (authority_level-IsRefusal n) λ level.
        then_ (item d "permitted_repository_commit") _
          (item-IsRefusal policy_fields d "permitted_repository_commit" has refl)
          λ c.
            then_ (item d "permitted_implementation_digest") _
              (item-IsRefusal policy_fields d "permitted_implementation_digest" has refl)
              λ i.
                then_ (item d "permitted_network_id") _
                  (item-IsRefusal policy_fields d "permitted_network_id" has refl)
                  λ w.
                    then_ (item d "permitted_taker_address") _
                      (item-IsRefusal policy_fields d "permitted_taker_address" has refl)
                      λ t.
                        then_ (item d "permitted_venue_id") _
                          (item-IsRefusal policy_fields d "permitted_venue_id" has refl)
                          λ v.
                            then_ (item d "max_reservation_atomic") _
                              (item-IsRefusal policy_fields d "max_reservation_atomic" has refl)
                              λ x.
                                then_ (canonical_atomic x "max_reservation_atomic" true) _
                                  (canonical_atomic-IsRefusal x "max_reservation_atomic" true)
                                  λ _.
                                    then_ (item d "max_cumulative_atomic") _
                                      (item-IsRefusal policy_fields d "max_cumulative_atomic" has
                                        refl)
                                      λ x.
                                        then_ (canonical_atomic x "max_cumulative_atomic" true) _
                                          (canonical_atomic-IsRefusal x "max_cumulative_atomic"
                                            true)
                                          λ _.
                                            then_ (item d "not_before_epoch_s") _
                                              (item-IsRefusal policy_fields d "not_before_epoch_s"
                                                has refl)
                                              λ nb.
                                                then_ (item d "not_after_epoch_s") _
                                                  (item-IsRefusal policy_fields d
                                                    "not_after_epoch_s" has refl)
                                                  λ na.
                                                    then_ (item d "schema") _
                                                      (item-IsRefusal policy_fields d "schema" has
                                                        refl)
                                                      λ s. tt

pub not-false : (b : Bool) → not b ≡ false → b ≡ true
not-false true h = refl
not-false false h = absurd cc

authority-IsRefusal :
    (kind : ErrorClass) → is_authority_root_error kind ≡ true → is_refusal kind ≡ true
authority-IsRefusal value_error h = refl
authority-IsRefusal _ h = h

-- The inner `except ValueError`.
wrapped-IsRefusal {ℓ} :
    {A : Type ℓ} (message : String) (p : Result A)
    → IsRefusal p
    → IsRefusal (wrap_value_error message p)
wrapped-IsRefusal {A = A} message p h =
    kept (wrap_value_error message p) (λ e k. wrap_value_error-kind message p e h k)
  where
    kept :
        (q : Result A)
        → ((e : Error) → q ≡ err e → is_authority_root_error e.kind ≡ true)
        → IsRefusal q
    kept (ok a) k = tt
    kept (err e) k = authority-IsRefusal e.kind (k e refl)

pub authority_policy_from_object-IsRefusal :
    (v : Value) → IsRefusal (authority_policy_from_object v)
unfolding authority_policy_from_object policy_fields text_mem text_eq
authority_policy_from_object-IsRefusal (obj d) =
    >>=-IsRefusal
      (refuse_if (not (has_exactly policy_fields d)) ""
        "authority policy has unknown or missing fields")
      _ (refuse_if-IsRefusal _ _ _)
      λ _ checked.
        let has = not-false (has_exactly policy_fields d) (
          raise_if-eq-ok (not (has_exactly policy_fields d)) authority_root_error ""
            "authority policy has unknown or missing fields" checked) in
        then_ (item d "granted_level") _ (item-IsRefusal policy_fields d "granted_level" has refl)
          λ v. then_ (level_field v) _ (level_field-IsRefusal v) λ n.
            wrapped-IsRefusal "malformed authority policy"
              (policy_arguments d n >>= authority_policy_ref)
              (then_ (policy_arguments d n) authority_policy_ref
                (policy_arguments-IsRefusal d n has) authority_policy_ref-IsRefusal)
authority_policy_from_object-IsRefusal _ = refl
