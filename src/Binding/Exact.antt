-- ===== src/Binding/Exact.antt =====
-- What `assert_ink_v0f_exact_authority_binding` of src/qnty_authority_root/ink_v0f_binding.py admits.
use qnty_authority_root.Prelude.{
  ℕ, ◌<◌, ◌≤◌, ◌-◌, ◌≡◌, ◌↔◌, refl, inl, inr, Bool-cases, ◌||◌, Text, String, text_eq,
  text_eq_sound, text_eq_refl, ◌==◌, ==_iff, leb, false, ltb, arith,
}
use qnty_authority_root.Errors.{Result, ok, ◌>>◌, raise_if-eq-ok, issuance_policy_error}
use qnty_authority_root.Contract.PolicyRef.{AuthorityPolicyRefV0, level_number}
use qnty_authority_root.Risk.{duration}
use qnty_authority_root.Binding.{
  assert_ink_v0f_exact_authority_binding, ink_v0f_grant_preparation, same_text, same_number,
  differs,
}

-- The policy has the reviewed value in every field, and an interval that is not empty and no longer
-- than the reviewed one.
abbrev pub IsReviewed : AuthorityPolicyRefV0 → Type 0
IsReviewed a =
    let prep = ink_v0f_grant_preparation in
    (a.authority_root_id ≡ prep.authority_root_id)
    × (level_number a.granted_level ≡ level_number prep.maximum_issuable_level)
    × (a.permitted_repository_commit ≡ prep.permitted_repository_commit)
    × (a.permitted_implementation_digest ≡ prep.permitted_implementation_digest)
    × (a.permitted_network_id ≡ prep.permitted_network_id)
    × (a.permitted_taker_address ≡ prep.permitted_taker_address)
    × (a.permitted_venue_id ≡ prep.permitted_venue_id)
    × (a.max_reservation_atomic ≡ prep.max_reservation_atomic)
    × (a.max_cumulative_atomic ≡ prep.max_cumulative_atomic)
    × (a.not_before_epoch_s < a.not_after_epoch_s)
    × (a.not_after_epoch_s - a.not_before_epoch_s ≤ prep.max_grant_duration_s)

same_text-then :
    (field : String) (s t : Text) (k : Result (Unit {0}))
    → (same_text differs field s t >> k) ≡ ok tt
    → (s ≡ t) × (k ≡ ok tt)
unfolding same_text
same_text-then field s t k h = elim (Bool-cases (text_eq s t)) [
  | inl e ↦ (text_eq_sound s t e, rw e at h)
  | inr e ↦ ground (arith, rw e at h)
]

same_number-then :
    (field : String) (m n : ℕ) (k : Result (Unit {0}))
    → (same_number differs field m n >> k) ≡ ok tt
    → (m ≡ n) × (k ≡ ok tt)
unfolding same_number
same_number-then field m n k h = elim (Bool-cases (m == n)) [
  | inl e ↦ (ground (arith, e), rw e at h)
  | inr e ↦ ground (arith, rw e at h)
]

same_text_refl : (field : String) (s t : Text) → s ≡ t → same_text differs field s t ≡ ok tt
unfolding same_text
same_text_refl field s t e = rw (e, text_eq_refl t) refl

same_number_refl : (field : String) (m n : ℕ) → m ≡ n → same_number differs field m n ≡ ok tt
unfolding same_number
same_number_refl field m n e = rw ((==_iff m n).1 e) refl

exact_binding-IsReviewed :
    (a : AuthorityPolicyRefV0) → assert_ink_v0f_exact_authority_binding a ≡ ok tt → IsReviewed a
unfolding assert_ink_v0f_exact_authority_binding
exact_binding-IsReviewed a h =
    let prep = ink_v0f_grant_preparation in
    let (root, h) =
      same_text-then "authority_root_id" a.authority_root_id prep.authority_root_id _ h in
    let (level, h) =
      same_number-then "granted_level" (level_number a.granted_level)
        (level_number prep.maximum_issuable_level) _ h in
    let (commit, h) =
      same_text-then "permitted_repository_commit" a.permitted_repository_commit
        prep.permitted_repository_commit _ h in
    let (digest, h) =
      same_text-then "permitted_implementation_digest" a.permitted_implementation_digest
        prep.permitted_implementation_digest _ h in
    let (network, h) =
      same_text-then "permitted_network_id" a.permitted_network_id prep.permitted_network_id _ h in
    let (taker, h) =
      same_text-then "permitted_taker_address" a.permitted_taker_address
        prep.permitted_taker_address _ h in
    let (venue, h) =
      same_text-then "permitted_venue_id" a.permitted_venue_id prep.permitted_venue_id _ h in
    let (reservation, h) =
      same_number-then "max_reservation_atomic" a.max_reservation_atomic prep.max_reservation_atomic
        _ h in
    let (cumulative, h) =
      same_number-then "max_cumulative_atomic" a.max_cumulative_atomic prep.max_cumulative_atomic _
        h in
    let interval =
      raise_if-eq-ok _ issuance_policy_error ""
        "Ink V0F grant duration differs from the reviewed duration ceiling" h in
    (
      root,
      level,
      commit,
      digest,
      network,
      taker,
      venue,
      reservation,
      cumulative,
      ground (arith, interval),
      ground (arith, interval),
    )

IsReviewed-exact_binding :
    (a : AuthorityPolicyRefV0) → IsReviewed a → assert_ink_v0f_exact_authority_binding a ≡ ok tt
unfolding assert_ink_v0f_exact_authority_binding
IsReviewed-exact_binding a
      (
        root, level, commit, digest, network, taker, venue, reservation, cumulative, positive,
        short,
      ) =
    let prep = ink_v0f_grant_preparation in
    let interval : (leb a.not_after_epoch_s a.not_before_epoch_s
          || ltb prep.max_grant_duration_s (duration a))
        ≡ false =
      ground (arith, positive, short) in
    rw
      (
        same_text_refl "authority_root_id" _ _ root,
        same_number_refl "granted_level" _ _ level,
        same_text_refl "permitted_repository_commit" _ _ commit,
        same_text_refl "permitted_implementation_digest" _ _ digest,
        same_text_refl "permitted_network_id" _ _ network,
        same_text_refl "permitted_taker_address" _ _ taker,
        same_text_refl "permitted_venue_id" _ _ venue,
        same_number_refl "max_reservation_atomic" _ _ reservation,
        same_number_refl "max_cumulative_atomic" _ _ cumulative,
        interval,
      )
      refl

-- The binding admits a policy exactly when each of its fields has the reviewed value and its interval
-- is not empty and at most the reviewed maximum long.
pub exact_binding_iff :
    (a : AuthorityPolicyRefV0) → (assert_ink_v0f_exact_authority_binding a ≡ ok tt) ↔ IsReviewed a
exact_binding_iff a = (exact_binding-IsReviewed a, IsReviewed-exact_binding a)
