-- ===== src/Regex/Language.antt =====
-- `fullmatch` decides the language of a pattern.
use qnty_authority_root.Prelude.{
  ℕ, ◌≡◌, refl, sym, ap, ◌∙◌, ◌↔◌, ◌⊎◌, inl, inr, subst, Bool, true, false, ◌||◌, [], ◌∷◌, ◌++◌,
  Text, arith, if◌then◌else◌, &&-elim,
}
use qnty_authority_root.Regex.{
  Regex, never, empty, class, seq, alt, star, nullable, join, either, derivative, fullmatch,
}

-- The texts that a pattern matches as a whole. A round of `star` takes at least one character.
pub data Matches : Regex → Text → Type 0 where
  nothing : {t : Text} → t ≡ [] → Matches empty t
  one : {p : ℕ → Bool} {t : Text} (c : ℕ) → p c ≡ true → t ≡ c ∷ [] → Matches (class p) t
  both :
      {r s : Regex} {t : Text} (u v : Text)
      → Matches r u
      → Matches s v
      → t ≡ u ++ v
      → Matches (seq r s) t
  left : {r s : Regex} {t : Text} → Matches r t → Matches (alt r s) t
  right : {r s : Regex} {t : Text} → Matches s t → Matches (alt r s) t
  done : {r : Regex} {t : Text} → t ≡ [] → Matches (star r) t
  round :
      {r : Regex} {t : Text} (c : ℕ) (u v : Text)
      → Matches r (c ∷ u)
      → Matches (star r) v
      → t ≡ c ∷ (u ++ v)
      → Matches (star r) t

||-elim : (a b : Bool) → (a || b) ≡ true → (a ≡ true) ⊎ (b ≡ true)
||-elim true b h = inl refl
||-elim false b h = inr h

nullable_sound : (r : Regex) → nullable r ≡ true → Matches r []
unfolding nullable
nullable_sound never h = cc
nullable_sound empty h = nothing refl
nullable_sound (class p) h = cc
nullable_sound (seq r s) h =
    let (hr, hs) = &&-elim (nullable r) (nullable s) h in
    both [] [] (nullable_sound r hr) (nullable_sound s hs) refl
nullable_sound (alt r s) h = elim (||-elim (nullable r) (nullable s) h) [
  | inl hr ↦ left (nullable_sound r hr)
  | inr hs ↦ right (nullable_sound s hs)
]
nullable_sound (star r) h = done refl

append-eq-nil : (u v : Text) → [] ≡ u ++ v → (u ≡ []) × (v ≡ [])
append-eq-nil [] v h = (refl, sym h)
append-eq-nil (c ∷ u) v h = cc

nullable_complete : {r : Regex} {t : Text} → Matches r t → t ≡ [] → nullable r ≡ true
unfolding nullable
nullable_complete (nothing e) z = refl
nullable_complete (one c h e) z = cc
nullable_complete (both u v hu hv e) z =
    let (zu, zv) = append-eq-nil u v (sym z ∙ e) in
    ground (arith, nullable_complete hu zu, nullable_complete hv zv)
nullable_complete (left h) z = ground (arith, nullable_complete h z)
nullable_complete (right h) z = ground (arith, nullable_complete h z)
nullable_complete (done e) z = refl
nullable_complete (round c u v hu hv e) z = cc

join_sound : (r s : Regex) {t : Text} → Matches (join r s) t → Matches (seq r s) t
unfolding join
join_sound never s {t} h = impossible h
  where
    impossible : {A : Type 0} {u : Text} → Matches never u → A
    impossible h = elim h [ ]
join_sound empty s {t} h = both [] t (nothing refl) h refl
join_sound (class p) s h = h
join_sound (seq r r') s h = h
join_sound (alt r r') s h = h
join_sound (star r) s h = h

-- A match of `never` or of `empty` in front.
join_complete : (r s : Regex) {t : Text} → Matches (seq r s) t → Matches (join r s) t
unfolding join
join_complete never s (both u v hu hv e) = elim hu [ ]
join_complete empty s (both u v (nothing z) hv e) =
    subst (Matches s) (sym (e ∙ ap (λ w. w ++ v) z)) hv
join_complete (class p) s h = h
join_complete (seq r r') s h = h
join_complete (alt r r') s h = h
join_complete (star r) s h = h

either_sound : (r s : Regex) {t : Text} → Matches (either r s) t → Matches (alt r s) t
unfolding either
either_sound never s h = right h
either_sound empty s h = h
either_sound (class p) s h = h
either_sound (seq r r') s h = h
either_sound (alt r r') s h = h
either_sound (star r) s h = h

either_complete : (r s : Regex) {t : Text} → Matches (alt r s) t → Matches (either r s) t
unfolding either
either_complete never s (left h) = elim h [ ]
either_complete never s (right h) = h
either_complete empty s h = h
either_complete (class p) s h = h
either_complete (seq r r') s h = h
either_complete (alt r r') s h = h
either_complete (star r) s h = h

-- Prefixing the first part of a sequence, or of a round, by the character read.
seq_prefix :
    (c : ℕ) (r' : Regex) {r s : Regex} {t : Text}
    → ((u : Text) → Matches r' u → Matches r (c ∷ u))
    → Matches (seq r' s) t
    → Matches (seq r s) (c ∷ t)
seq_prefix c r' up (both u v hu hv e) = both (c ∷ u) v (up u hu) hv (ap (λ w. c ∷ w) e)

round_prefix :
    (c : ℕ) (r' : Regex) {r : Regex} {t : Text}
    → ((u : Text) → Matches r' u → Matches r (c ∷ u))
    → Matches (seq r' (star r)) t
    → Matches (star r) (c ∷ t)
round_prefix c r' up (both u v hu hv e) = round c u v (up u hu) hv (ap (λ w. c ∷ w) e)

alt_cases : (r s : Regex) {t : Text} → Matches (alt r s) t → Matches r t ⊎ Matches s t
alt_cases r s (left h) = inl h
alt_cases r s (right h) = inr h

class_sound :
    (c : ℕ) (p : ℕ → Bool) (b : Bool) {t : Text}
    → p c ≡ b
    → Matches (if b then empty else never) t
    → Matches (class p) (c ∷ t)
class_sound c p true e (nothing z) = one c e (ap (λ w. c ∷ w) z)
class_sound c p false e h = elim h [ ]

seq_sound :
    (c : ℕ) (r s : Regex) (b : Bool) {t : Text}
    → nullable r ≡ b
    → ((u : Text) → Matches (derivative c r) u → Matches r (c ∷ u))
    → ((u : Text) → Matches (derivative c s) u → Matches s (c ∷ u))
    → Matches
        (if b then either (join (derivative c r) s) (derivative c s) else join (derivative c r) s)
        t
    → Matches (seq r s) (c ∷ t)
seq_sound c r s false n first second h =
    seq_prefix c (derivative c r) first (join_sound (derivative c r) s h)
seq_sound c r s true {t} n first second h =
    elim (alt_cases _ _ (either_sound (join (derivative c r) s) (derivative c s) h)) [
      | inl hr ↦ seq_prefix c (derivative c r) first (join_sound (derivative c r) s hr)
      | inr hs ↦ both [] (c ∷ t) (nullable_sound r n) (second t hs) refl
    ]

derivative_sound : (c : ℕ) (r : Regex) (t : Text) → Matches (derivative c r) t → Matches r (c ∷ t)
unfolding derivative
derivative_sound c never t h = elim h [ ]
derivative_sound c empty t h = absurd (elim h [ ])
derivative_sound c (class p) t h = class_sound c p (p c) refl h
derivative_sound c (seq r s) t h =
    seq_sound c r s (nullable r) refl (derivative_sound c r) (derivative_sound c s) h
derivative_sound c (alt r s) t h =
    elim (alt_cases _ _ (either_sound (derivative c r) (derivative c s) h)) [
      | inl hr ↦ left (derivative_sound c r t hr)
      | inr hs ↦ right (derivative_sound c s t hs)
    ]
derivative_sound c (star r) t h =
    round_prefix c (derivative c r) (derivative_sound c r) (join_sound (derivative c r) (star r) h)

cons-eq : {c d : ℕ} {s t : Text} → c ∷ s ≡ d ∷ t → (c ≡ d) × (s ≡ t)
cons-eq h = (cc, cc)

-- A match of a sequence begins inside its first part, or inside its second if the first is empty.
seq_complete :
    (c : ℕ) (r s : Regex) (b : Bool) {t : Text}
    → nullable r ≡ b
    → ((u : Text) → Matches r (c ∷ u) → Matches (derivative c r) u)
    → ((u : Text) → Matches s (c ∷ u) → Matches (derivative c s) u)
    → (u v : Text) → Matches r u
    → Matches s v
    → c ∷ t ≡ u ++ v
    → Matches
        (if b then either (join (derivative c r) s) (derivative c s) else join (derivative c r) s)
        t
seq_complete c r s true {t} n first second [] v hu hv e =
    either_complete _ _ (right (second t (subst (Matches s) (sym e) hv)))
seq_complete c r s false n first second [] v hu hv e = absurd (cc (nullable_complete hu refl))
seq_complete c r s true n first second (d ∷ u) v hu hv e =
    let (same, rest) = cons-eq e in
    either_complete _ _ (
      left (
        join_complete (derivative c r) s
          (both u v (first u (subst (λ x. Matches r (x ∷ u)) (sym same) hu)) hv rest)))
seq_complete c r s false n first second (d ∷ u) v hu hv e =
    let (same, rest) = cons-eq e in
    join_complete (derivative c r) s
      (both u v (first u (subst (λ x. Matches r (x ∷ u)) (sym same) hu)) hv rest)

derivative_complete :
    (c : ℕ) (r : Regex) {w : Text} (t : Text) → Matches r w → w ≡ c ∷ t → Matches (derivative c r) t
unfolding derivative
derivative_complete c never t h e = elim h [ ]
derivative_complete c empty t (nothing z) e = absurd (cc)
derivative_complete c (class p) t (one d h z) e =
    let (same, rest) = cons-eq (sym e ∙ z) in
    subst (λ x. Matches (if x then empty else never) t) (sym (ap p same ∙ h)) (nothing rest)
derivative_complete c (seq r s) t (both u v hu hv z) e =
    seq_complete c r s (nullable r) refl (λ u' h. derivative_complete c r u' h refl)
      (λ u' h. derivative_complete c s u' h refl) u v hu hv (sym e ∙ z)
derivative_complete c (alt r s) t (left h) e =
    either_complete _ _ (left (derivative_complete c r t h e))
derivative_complete c (alt r s) t (right h) e =
    either_complete _ _ (right (derivative_complete c s t h e))
derivative_complete c (star r) t (done z) e = absurd (cc)
derivative_complete c (star r) t (round d u v hu hv z) e =
    let (same, rest) = cons-eq (sym e ∙ z) in
    join_complete (derivative c r) (star r)
      (both u v (derivative_complete c r u hu (ap (λ x. x ∷ u) (sym same))) hv rest)

-- `fullmatch` answers true exactly on the texts that the pattern matches.
pub fullmatch_iff_Matches : (r : Regex) (s : Text) → (fullmatch r s ≡ true) ↔ Matches r s
unfolding fullmatch
fullmatch_iff_Matches r [] = (nullable_sound r, λ h. nullable_complete h refl)
fullmatch_iff_Matches r (c ∷ s) = (
  λ h. derivative_sound c r s ((fullmatch_iff_Matches (derivative c r) s).0 h),
  λ h. (fullmatch_iff_Matches (derivative c r) s).1 (derivative_complete c r s h refl),
)
