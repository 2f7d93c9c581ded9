-- ===== src/Contract/Digests.antt =====
-- The hexadecimal texts that src/qnty_authority_root/contract.py admits.
use qnty_authority_root.Prelude.{
  ◌≡◌, ◌↔◌, refl, inl, inr, Bool-cases, true, Bytes, Text, String, arith,
}
use qnty_authority_root.Errors.{ok}
use qnty_authority_root.Json.Values.{str}
use qnty_authority_root.Regex.{fullmatch}
use qnty_authority_root.Regex.Runs.{IsRun, fullmatch-times_iff}
use qnty_authority_root.Sha256.Shape.{is_lower_hex}
use qnty_authority_root.Canon.{sha256_hex}
use qnty_authority_root.Canon.Shape.{sha256_hex-IsRun}
use qnty_authority_root.Contract.Checks.{digest, commit, hex64_re, commit_re}

digest-match :
    (s : Text) (field : String) → (digest (str s) field ≡ ok s) ↔ (fullmatch hex64_re s ≡ true)
unfolding digest
digest-match s field = elim (Bool-cases (fullmatch hex64_re s)) [
  | inl e ↦ ((λ _. e), λ _. rw e refl)
  | inr e ↦ ((λ h. ground (arith, rw e at h)), λ h. absurd cc)
]

commit-match :
    (s : Text) (field : String) → (commit (str s) field ≡ ok s) ↔ (fullmatch commit_re s ≡ true)
unfolding commit
commit-match s field = elim (Bool-cases (fullmatch commit_re s)) [
  | inl e ↦ ((λ _. e), λ _. rw e refl)
  | inr e ↦ ((λ h. ground (arith, rw e at h)), λ h. absurd cc)
]

-- `_digest` admits a text exactly when it is 64 lowercase hexadecimal characters, and `_commit` when
-- it is 40 of them.
pub digest_iff :
    (s : Text) (field : String)
    → ((digest (str s) field ≡ ok s) ↔ IsRun is_lower_hex 64 s)
      × ((commit (str s) field ≡ ok s) ↔ IsRun is_lower_hex 40 s)
unfolding hex64_re commit_re
digest_iff s field =
    let d = digest-match s field in
    let c = commit-match s field in
    let m = fullmatch-times_iff is_lower_hex 64 s in
    let n = fullmatch-times_iff is_lower_hex 40 s in
    (((λ h. m.0 (d.0 h)), λ h. d.1 (m.1 h)), ((λ h. n.0 (c.0 h)), λ h. c.1 (n.1 h)))

-- Every SHA-256 digest that the package computes, of whatever bytes, is admitted by `_digest`.
pub digest-sha256_hex :
    (bytes : Bytes) (field : String) → digest (str (sha256_hex bytes)) field ≡ ok (sha256_hex bytes)
digest-sha256_hex bytes field = (digest_iff (sha256_hex bytes) field).0.1 (sha256_hex-IsRun bytes)
