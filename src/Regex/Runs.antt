-- ===== src/Regex/Runs.antt =====
-- Patterns that are runs of one character class: `[0-9a-f]{64}` and its like.
use qnty_authority_root.Prelude.{
  ℕ, zero, suc, ◌≡◌, refl, ◌↔◌, Bool, true, [], ◌∷◌, Text, arith, length, All,
}
use qnty_authority_root.Regex.{class, star, times, fullmatch}
use qnty_authority_root.Regex.Language.{
  Matches, nothing, one, both, done, round, fullmatch_iff_Matches,
}

-- Exactly `n` characters, all of the class.
abbrev pub IsRun : (ℕ → Bool) → ℕ → Text → Type 0
IsRun p n s = (length s ≡ n) × All (λ c. p c ≡ true) s

times_sound : (p : ℕ → Bool) (n : ℕ) {s : Text} → Matches (times n (class p)) s → IsRun p n s
times_sound p zero (nothing e) = ground (arith, e)
times_sound p (suc n) (both u v (one c h z) hv e) =
    let rest = times_sound p n hv in ground (arith, e, z, h, rest)

times_complete : (p : ℕ → Bool) (n : ℕ) (s : Text) → IsRun p n s → Matches (times n (class p)) s
times_complete p zero [] h = nothing refl
times_complete p zero (c ∷ s) h = absurd (omega arith)
times_complete p (suc n) [] h = absurd (omega arith)
times_complete p (suc n) (c ∷ s) h =
    both (c ∷ []) s (one c h.1.0 refl) (times_complete p n s (omega arith, h.1.1)) refl

pub fullmatch-times_iff :
    (p : ℕ → Bool) (n : ℕ) (s : Text) → (fullmatch (times n (class p)) s ≡ true) ↔ IsRun p n s
fullmatch-times_iff p n s = (
  λ h. times_sound p n ((fullmatch_iff_Matches _ s).0 h),
  λ h. (fullmatch_iff_Matches _ s).1 (times_complete p n s h),
)

-- `[…]*` matches every text over the class.
pub star_complete : (p : ℕ → Bool) (s : Text) → All (λ c. p c ≡ true) s → Matches (star (class p)) s
star_complete p [] h = done refl
star_complete p (c ∷ s) h = round c [] s (one c h.0 refl) (star_complete p s h.1) refl
