-- ===== src/Scripts/Epoch6/Scope.antt =====
-- Which receipts `_assert_scope` of scripts/issue_ink_v0f_epoch6_successor_grant.py accepts.
use qnty_authority_root.Prelude.{
  ◌≡◌, refl, ◌↔◌, ◌⊎◌, inl, inr, ℕ, ◌+◌, ◌≤◌, Bool, true, false, not, ◌&&◌, ◌||◌, Bool-cases,
  &&-elim, Option, some, none, Text, String, arith, text_eq, text_eq_sound, text_eq_iff, ==_iff,
  ◌==◌, leb, leb→le, if◌then◌else◌,
}
use qnty_authority_root.Errors.{ok, raise, runtime_error, raise_if-eq-ok, >>=-elim}
use qnty_authority_root.Contract.PolicyRef.{AuthorityPolicyRefV0, level_number}
use qnty_authority_root.Contract.Receipt.{AuthorityGrantReceiptV0}
use qnty_authority_root.Binding.{ink_v0f_qntyspot_commit, ink_v0f_qntyspot_implementation_digest}
use qnty_authority_root.Scripts.Epoch6.{
  authority_epoch, duration_s, expected_taker, expected_network, expected_venue, expected_atomic,
  historical_serial, historical_issued_at, historical_not_after, historical_commit,
  historical_implementation, refuse_if, ScopeKind, current, historical_serial1, historical_expired,
  assert_frame, is_current, is_historical, is_expired_before, scope_kind, assert_scope,
}

-- What every grant of epoch 6 is: of the epoch, for 900 seconds from its issuance, for the reviewed
-- taker, network, venue and amounts, at level 3.
abbrev pub IsFramed : AuthorityGrantReceiptV0 → Type 0
IsFramed r =
    let p = r.authority_policy in
    (r.authority_epoch ≡ authority_epoch)
    × (p.not_before_epoch_s ≡ r.issued_at_epoch_s)
    × (p.not_after_epoch_s ≡ r.issued_at_epoch_s + duration_s)
    × (p.permitted_taker_address ≡ expected_taker)
    × (p.permitted_network_id ≡ expected_network)
    × (p.permitted_venue_id ≡ expected_venue)
    × (p.max_reservation_atomic ≡ expected_atomic)
    × (p.max_cumulative_atomic ≡ expected_atomic)
    × (level_number p.granted_level ≡ 3)

-- The current binding, the one historical receipt where it is allowed, or a grant that is over.
abbrev pub IsAllowed : Bool → Option ℕ → AuthorityGrantReceiptV0 → Type 0
IsAllowed serial1 expired_before r =
    let p = r.authority_policy in
    ((p.permitted_repository_commit ≡ ink_v0f_qntyspot_commit)
      × (p.permitted_implementation_digest ≡ ink_v0f_qntyspot_implementation_digest))
    ⊎ (((serial1 ≡ true)
          × (r.serial ≡ historical_serial)
          × (r.issued_at_epoch_s ≡ historical_issued_at)
          × (p.not_after_epoch_s ≡ historical_not_after)
          × (p.permitted_repository_commit ≡ historical_commit)
          × (p.permitted_implementation_digest ≡ historical_implementation))
        ⊎ ((t : ℕ) × (expired_before ≡ some t) × (p.not_after_epoch_s ≤ t)))

number : (m n : ℕ) → not (m == n) ≡ false → m ≡ n
number m n h = ground arith

text : (s t : Text) → not (text_eq s t) ≡ false → s ≡ t
text s t h = elim (Bool-cases (text_eq s t)) [
  | inl e ↦ text_eq_sound s t e
  | inr e ↦ absurd (let k : true ≡ false = rw e at h in cc)
]

both : (a b : Bool) → (not a || not b) ≡ false → (not a ≡ false) × (not b ≡ false)
both true true h = (refl, refl)
both true false h = absurd cc
both false b h = absurd cc

refused : (b : Bool) (message : String) → refuse_if b message ≡ ok tt → b ≡ false
refused b message = raise_if-eq-ok b runtime_error "" message

assert_frame-IsFramed : (r : AuthorityGrantReceiptV0) → assert_frame r ≡ ok tt → IsFramed r
unfolding assert_frame
assert_frame-IsFramed r h =
    let p = r.authority_policy in
    let a = not (r.authority_epoch == authority_epoch) in
    let b = not (p.not_before_epoch_s == r.issued_at_epoch_s) in
    let c = not (p.not_after_epoch_s == r.issued_at_epoch_s + duration_s) in
    let d = not (text_eq p.permitted_taker_address expected_taker) in
    let e = not (text_eq p.permitted_network_id expected_network) in
    let f = not (text_eq p.permitted_venue_id expected_venue) in
    let g =
      not (p.max_reservation_atomic == expected_atomic)
      || not (p.max_cumulative_atomic == expected_atomic) in
    let l = not (level_number p.granted_level == 3) in
    >>=-elim (refuse_if a "receipt authority epoch mismatch") _ h λ _ ha h.
      >>=-elim (refuse_if b "receipt not-before mismatch") _ h λ _ hb h.
        >>=-elim (refuse_if c "receipt duration mismatch") _ h λ _ hc h.
          >>=-elim (refuse_if d "receipt taker mismatch") _ h λ _ hd h.
            >>=-elim (refuse_if e "receipt network mismatch") _ h λ _ he h.
              >>=-elim (refuse_if f "receipt venue mismatch") _ h λ _ hf h.
                >>=-elim (refuse_if g "receipt capital ceiling mismatch") _ h λ _ hg h.
                  let (first, second) =
                    both (p.max_reservation_atomic == expected_atomic)
                      (p.max_cumulative_atomic == expected_atomic)
                      (refused g "receipt capital ceiling mismatch" hg) in
                  (
                    number r.authority_epoch authority_epoch
                        (refused a "receipt authority epoch mismatch" ha),
                    number p.not_before_epoch_s r.issued_at_epoch_s
                        (refused b "receipt not-before mismatch" hb),
                    number p.not_after_epoch_s (r.issued_at_epoch_s + duration_s)
                        (refused c "receipt duration mismatch" hc),
                    text p.permitted_taker_address expected_taker
                        (refused d "receipt taker mismatch" hd),
                    text p.permitted_network_id expected_network
                        (refused e "receipt network mismatch" he),
                    text p.permitted_venue_id expected_venue
                        (refused f "receipt venue mismatch" hf),
                    number p.max_reservation_atomic expected_atomic first,
                    number p.max_cumulative_atomic expected_atomic second,
                    number (level_number p.granted_level) 3
                        (refused l "receipt authority level mismatch" h),
                  )

same_number : (m n : ℕ) → m ≡ n → (m == n) ≡ true
same_number m n = (==_iff m n).1

same_text : (s t : Text) → s ≡ t → text_eq s t ≡ true
same_text s t = (text_eq_iff s t).1

IsFramed-assert_frame : (r : AuthorityGrantReceiptV0) → IsFramed r → assert_frame r ≡ ok tt
unfolding assert_frame
IsFramed-assert_frame r (a, b, c, d, e, f, g, k, l) =
    let p = r.authority_policy in
    rw
      (
        same_number r.authority_epoch authority_epoch a,
        same_number p.not_before_epoch_s r.issued_at_epoch_s b,
        same_number p.not_after_epoch_s (r.issued_at_epoch_s + duration_s) c,
        same_text p.permitted_taker_address expected_taker d,
        same_text p.permitted_network_id expected_network e,
        same_text p.permitted_venue_id expected_venue f,
        same_number p.max_reservation_atomic expected_atomic g,
        same_number p.max_cumulative_atomic expected_atomic k,
        same_number (level_number p.granted_level) 3 l,
      )
      refl

historical-elim :
    (serial1 : Bool) (r : AuthorityGrantReceiptV0)
    → (serial1 && is_historical r) ≡ true
    → (serial1 ≡ true)
      × (r.serial ≡ historical_serial)
      × (r.issued_at_epoch_s ≡ historical_issued_at)
      × (r.authority_policy.not_after_epoch_s ≡ historical_not_after)
      × (r.authority_policy.permitted_repository_commit ≡ historical_commit)
      × (r.authority_policy.permitted_implementation_digest ≡ historical_implementation)
historical-elim serial1 r h =
    let p = r.authority_policy in
    let (allowed, h1) = &&-elim serial1 (is_historical r) h in
    let (a, h2) = &&-elim (r.serial == historical_serial) _ h1 in
    let (b, h3) = &&-elim (r.issued_at_epoch_s == historical_issued_at) _ h2 in
    let (c, h4) = &&-elim (p.not_after_epoch_s == historical_not_after) _ h3 in
    let (d, e) =
      &&-elim (text_eq p.permitted_repository_commit historical_commit)
        (text_eq p.permitted_implementation_digest historical_implementation) h4 in
    (
      allowed,
      (==_iff r.serial historical_serial).0 a,
      (==_iff r.issued_at_epoch_s historical_issued_at).0 b,
      (==_iff p.not_after_epoch_s historical_not_after).0 c,
      text_eq_sound p.permitted_repository_commit historical_commit d,
      text_eq_sound p.permitted_implementation_digest historical_implementation e,
    )

expired-elim :
    (expired_before : Option ℕ) (p : AuthorityPolicyRefV0)
    → is_expired_before expired_before p ≡ true
    → (t : ℕ) × (expired_before ≡ some t) × (p.not_after_epoch_s ≤ t)
expired-elim none p h = absurd cc
expired-elim (some t) p h = (t, refl, leb→le p.not_after_epoch_s t h)

scope_kind-IsAllowed :
    (serial1 : Bool) (expired_before : Option ℕ) (r : AuthorityGrantReceiptV0) (kind : ScopeKind)
    → scope_kind serial1 expired_before r ≡ ok kind
    → IsAllowed serial1 expired_before r
unfolding scope_kind
scope_kind-IsAllowed serial1 expired_before r kind h =
    let p = r.authority_policy in
    elim (Bool-cases (is_current p)) [
      | inl now ↦
          let (a, b) =
            &&-elim (text_eq p.permitted_repository_commit ink_v0f_qntyspot_commit)
              (text_eq p.permitted_implementation_digest ink_v0f_qntyspot_implementation_digest)
              now in
          inl (
            text_eq_sound p.permitted_repository_commit ink_v0f_qntyspot_commit a,
            text_eq_sound p.permitted_implementation_digest ink_v0f_qntyspot_implementation_digest
                b,
          )
      | inr other ↦ elim (Bool-cases (serial1 && is_historical r)) [
        | inl first ↦ inr (inl (historical-elim serial1 r first))
        | inr later ↦ elim (Bool-cases (is_expired_before expired_before p)) [
          | inl over ↦ inr (inr (expired-elim expired_before p over))
          | inr running ↦ absurd (
              never (text_eq p.permitted_repository_commit ink_v0f_qntyspot_commit) kind
                (rw (other, later, running, scope_kind) at h))
        ]
      ]
    ]
  where
    never :
        (b : Bool) (kind : ScopeKind)
        → (if not b
            then raise runtime_error "" "receipt QntySpot commit mismatch"
            else raise runtime_error "" "receipt implementation digest mismatch")
          ≡ ok kind
        → ⊥
    never true kind h = cc
    never false kind h = cc

-- Whatever is true, one of the three branches is taken.
IsAllowed-scope_kind :
    (serial1 : Bool) (expired_before : Option ℕ) (r : AuthorityGrantReceiptV0)
    → IsAllowed serial1 expired_before r
    → (kind : ScopeKind) × (scope_kind serial1 expired_before r ≡ ok kind)
unfolding scope_kind
IsAllowed-scope_kind serial1 expired_before r allowed =
    let p = r.authority_policy in
    elim (Bool-cases (is_current p)) [
      | inl now ↦ (current, rw (now, scope_kind) refl)
      | inr other ↦ elim (Bool-cases (serial1 && is_historical r)) [
        | inl first ↦ (historical_serial1, rw (other, first, scope_kind) refl)
        | inr later ↦ elim (Bool-cases (is_expired_before expired_before p)) [
          | inl over ↦ (historical_expired, rw (other, later, over, scope_kind) refl)
          | inr running ↦ absurd (none_of allowed other later running)
        ]
      ]
    ]
  where
    none_of :
        IsAllowed serial1 expired_before r
        → is_current r.authority_policy ≡ false
        → (serial1 && is_historical r) ≡ false
        → is_expired_before expired_before r.authority_policy ≡ false
        → ⊥
    none_of (inl (a, b)) other later running =
        let p = r.authority_policy in
        let k : true ≡ false =
          rw
            (
              same_text p.permitted_repository_commit ink_v0f_qntyspot_commit a,
              same_text p.permitted_implementation_digest ink_v0f_qntyspot_implementation_digest b,
            )
            at other in
        cc
    none_of (inr (inl (s, a, b, c, d, e))) other later running =
        let p = r.authority_policy in
        let k : true ≡ false =
          rw
            (
              s,
              same_number r.serial historical_serial a,
              same_number r.issued_at_epoch_s historical_issued_at b,
              same_number p.not_after_epoch_s historical_not_after c,
              same_text p.permitted_repository_commit historical_commit d,
              same_text p.permitted_implementation_digest historical_implementation e,
            )
            at later in
        cc
    none_of (inr (inr (t, e, over))) other later running =
        let k : leb r.authority_policy.not_after_epoch_s t ≡ false = rw e at running in ground arith

-- `_assert_scope` accepts a receipt exactly when it is an epoch-6 grant of the reviewed scope for 900
-- seconds from its issuance, and is under the current binding, or is the one historical receipt where
-- that is allowed, or is over at the time that is given, if one is.
pub assert_scope_iff :
    (serial1 : Bool) (expired_before : Option ℕ) (r : AuthorityGrantReceiptV0)
    → ((kind : ScopeKind) × (assert_scope serial1 expired_before r ≡ ok kind))
      ↔ (IsFramed r × IsAllowed serial1 expired_before r)
unfolding assert_scope
assert_scope_iff serial1 expired_before r = (accepted, accepts)
  where
    accepted :
        ((kind : ScopeKind) × (assert_scope serial1 expired_before r ≡ ok kind))
        → IsFramed r × IsAllowed serial1 expired_before r
    accepted (kind, h) = >>=-elim (assert_frame r) _ h λ _ framed k.
        (assert_frame-IsFramed r framed, scope_kind-IsAllowed serial1 expired_before r kind k)

    accepts :
        IsFramed r × IsAllowed serial1 expired_before r
        → (kind : ScopeKind) × (assert_scope serial1 expired_before r ≡ ok kind)
    accepts (framed, allowed) =
        let (kind, h) = IsAllowed-scope_kind serial1 expired_before r allowed in
        (kind, rw (IsFramed-assert_frame r framed, assert_scope) h)
