-- ===== src/Contract/Kept.antt =====
-- What the value checks of src/qnty_authority_root/contract.py return is what they were given.
use qnty_authority_root.Prelude.{
  ℕ, zero, suc, ◌≡◌, refl, sym, inl, inr, Bool, true, false, Bool-cases, not, Text, String, pos,
  ltb, drop, text_eq_sound, arith, if◌then◌else◌,
}
use qnty_authority_root.Errors.{ok, >>=-elim}
use qnty_authority_root.Regex.{fullmatch}
use qnty_authority_root.Json.Values.{int, str}
use qnty_authority_root.Json.Access.{is_text}
use qnty_authority_root.Contract.Checks.{
  portable, digest, commit, label, address, positive_int, non_negative_int, atomic, address_re,
  is_zero_hex, max_uint256, refuse, refuse_if,
}

pub not-eq-false : (b : Bool) → not b ≡ false → b ≡ true
not-eq-false true h = refl
not-eq-false false h = cc

-- A test that returns its text or raises.
if-eq-ok :
    (b : Bool) (s : Text) (field message : String) {t : Text}
    → (if b then ok s else refuse field message) ≡ ok t
    → s ≡ t
if-eq-ok true s field message h = cc
if-eq-ok false s field message h = absurd cc

unless-eq-ok :
    (b : Bool) (s : Text) (field message : String) {t : Text}
    → (if b then refuse field message else ok s) ≡ ok t
    → s ≡ t
unless-eq-ok true s field message h = absurd cc
unless-eq-ok false s field message h = cc

pub portable-eq-ok : (s : Text) (field : String) {t : Text} → portable (str s) field ≡ ok t → s ≡ t
unfolding portable
portable-eq-ok s field h = unless-eq-ok _ s field "non-portable identity" h

pub digest-eq-ok : (s : Text) (field : String) {t : Text} → digest (str s) field ≡ ok t → s ≡ t
unfolding digest
digest-eq-ok s field h = if-eq-ok _ s field "expected lowercase SHA-256 hex" h

pub commit-eq-ok : (s : Text) (field : String) {t : Text} → commit (str s) field ≡ ok t → s ≡ t
unfolding commit
commit-eq-ok s field h = if-eq-ok _ s field "expected lowercase 40-character commit" h

pub label-eq-ok : (s : Text) (field : String) {t : Text} → label (str s) field ≡ ok t → s ≡ t
unfolding label
label-eq-ok s field h = unless-eq-ok _ s field "must be a short non-empty label" h

pub address-eq-ok : (s : Text) (field : String) {t : Text} → address (str s) field ≡ ok t → s ≡ t
unfolding address
address-eq-ok s field h =
    >>=-elim (refuse_if (not (fullmatch address_re s)) field "expected lowercase EVM address") _ h
      λ _ _ h.
        >>=-elim (refuse_if (is_zero_hex (drop 2 s)) field "the zero address is not admissible") _ h
          λ _ _ h. cc

pub positive_int-eq-ok :
    (n : ℕ) (field : String) {m : ℕ} → positive_int (int (pos n)) field ≡ ok m → n ≡ m
unfolding positive_int
positive_int-eq-ok zero field h = absurd cc
positive_int-eq-ok (suc n) field h = cc

pub non_negative_int-eq-ok :
    (n : ℕ) (field : String) {m : ℕ} → non_negative_int (int (pos n)) field ≡ ok m → n ≡ m
unfolding non_negative_int
non_negative_int-eq-ok n field h = cc

pub atomic-eq-ok : (n : ℕ) (field : String) {m : ℕ} → atomic (pos n) field true ≡ ok m → n ≡ m
unfolding atomic
atomic-eq-ok zero field h = absurd cc
atomic-eq-ok (suc n) field h = elim (Bool-cases (ltb max_uint256 (suc n))) [
  | inl e ↦ absurd (ground (arith, rw e at h))
  | inr e ↦ ground (arith, rw e at h)
]

pub is_text-eq : (s t : Text) → is_text s (str t) ≡ true → s ≡ t
unfolding is_text
is_text-eq s t h = sym (text_eq_sound t s h)
