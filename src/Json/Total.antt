-- ===== src/Json/Total.antt =====
-- The scanner of Json/Scan is total: the fuel of `loads_within` is enough for every text, and what
-- it refuses it refuses with one of the exceptions of the code. A text is shallow that is no longer than
-- the limit on recursion.
pub mod Nested
use qnty_authority_root.Prelude.{
  ◌≡◌, refl, sym, ap, ◌∙◌, inl, inr, ℕ, zero, suc, ◌+◌, ◌*◌, ◌≤◌, ◌<◌, Bool, true, false, not, ◌&&◌,
  Bool-cases, Option, some, none, Option-cases, [], ◌∷◌, Text, codes, length, ltb, leb, ◌==◌, arith,
  if◌then◌else◌,
}
use qnty_authority_root.Errors.{
  Error, ErrorClass, Result, ok, err, raise, ◌>>=◌, ◌>>◌, value_error, recursion_error,
  is_authority_root_error,
}
use qnty_authority_root.Decimal.{int_of_digits, is_digit}
use qnty_authority_root.Json.Values.{Value, Items, Fields, end}
use qnty_authority_root.Json.Scan.{
  is_space, skip_space, after, after_prefix, Separator, more, close, bad, separator, has_duplicates,
  reject_duplicate_keys, Start, quote, brace, bracket, other, start, scan_scalar, items_tail,
  field_tail, field_value, array_inside, object_inside, string_value, scan_value, scan_items,
  scan_fields, whole, loads,
}
use qnty_authority_root.Json.Scan.Strings.{
  hex_value, four_digits, Step, finished, char, is_high_surrogate, is_low_surrogate,
  join_surrogates, unicode_step, escape_step, string_step, string_loop, scan_string,
}
use qnty_authority_root.Json.Scan.Numbers.{
  span_digits, starts_float, signed, number_end, unsigned_number, scan_number,
}

-- An error of the package, a `ValueError` of Python, as `int` raises for long digits, or, unless the
-- text is shallow, a `RecursionError`.
abbrev pub is_refusal_at : Bool → ErrorClass → Bool
is_refusal_at shallow value_error = true
is_refusal_at shallow recursion_error = not shallow
is_refusal_at shallow kind = is_authority_root_error kind

-- Without a `RecursionError`.
abbrev pub is_refusal : ErrorClass → Bool
is_refusal = is_refusal_at true

module _ (shallow : Bool) where
  -- What is left is at most `n` characters long, or the text is refused.
  abbrev pub Leaves {ℓ} : {A : Type ℓ} → ℕ → Result (A × Text) → Type 0
  Leaves n (ok (a, r)) = length r ≤ n
  Leaves n (err e) = is_refusal_at shallow e.kind ≡ true

  abbrev StepLeaves : ℕ → Result Step → Type 0
  StepLeaves n (ok (finished r)) = length r ≤ n
  StepLeaves n (ok (char c r)) = length r ≤ n
  StepLeaves n (err e) = is_refusal_at shallow e.kind ≡ true

  pub Leaves-weaker {ℓ} :
      {A : Type ℓ} (m n : ℕ) (p : Result (A × Text)) → Leaves m p → m ≤ n → Leaves n p
  Leaves-weaker m n (ok (a, r)) h k = omega (arith, h, k)
  Leaves-weaker m n (err e) h k = h

  pub >>=-Leaves {ℓ ℓ'} :
      {A : Type ℓ} {B : Type ℓ'} (m n : ℕ) (p : Result (A × Text))
      (next : A × Text → Result (B × Text))
      → Leaves m p
      → ((a : A) (r : Text) → length r ≤ m → Leaves n (next (a, r)))
      → Leaves n (p >>= next)
  >>=-Leaves m n (ok (a, r)) next h k = k a r h
  >>=-Leaves m n (err e) next h k = h

  pub skip_space-length : (s : Text) → length (skip_space s) ≤ length s
  unfolding skip_space
  skip_space-length [] = omega arith
  skip_space-length (c ∷ s) = elim (Bool-cases (is_space c)) [
    | inl e ↦ rw e (let k = skip_space-length s in omega (arith, k))
    | inr e ↦ rw e (omega arith)
  ]

  pub after-length : (c : ℕ) (s r : Text) → after c s ≡ some r → suc (length r) ≡ length s
  unfolding after
  after-length c [] r h = absurd cc
  after-length c (d ∷ s) r h = elim (Bool-cases (c == d)) [
    | inl e ↦
        let k : some s ≡ some r = rw e at h in
        let same : s ≡ r = cc in ap (λ t. suc (length t)) (sym same)
    | inr e ↦ absurd (let k : none ≡ some r = rw e at h in cc)
  ]

  after_prefix-length : (p s r : Text) → after_prefix p s ≡ some r → length r ≤ length s
  unfolding after_prefix
  after_prefix-length [] s r h = let same : s ≡ r = cc in omega (arith, ap length same)
  after_prefix-length (c ∷ p) [] r h = absurd cc
  after_prefix-length (c ∷ p) (d ∷ s) r h = elim (Bool-cases (c == d)) [
    | inl e ↦ let k = after_prefix-length p s r (rw e at h) in omega (arith, k)
    | inr e ↦ absurd (let k : none ≡ some r = rw e at h in cc)
  ]

  four_digits-length : (s r : Text) (n : ℕ) → four_digits s ≡ some (n, r) → length r ≤ length s
  unfolding four_digits
  four_digits-length (a ∷ b ∷ c ∷ d ∷ s) r n h = ground arith
  four_digits-length (a ∷ b ∷ c ∷ []) r n h = absurd cc
  four_digits-length (a ∷ b ∷ []) r n h = absurd cc
  four_digits-length (a ∷ []) r n h = absurd cc
  four_digits-length [] r n h = absurd cc

  join_surrogates-StepLeaves : (n : ℕ) (s : Text) → StepLeaves (length s) (join_surrogates n s)
  unfolding join_surrogates
  join_surrogates-StepLeaves n [] = omega arith
  join_surrogates-StepLeaves n (a ∷ []) = omega arith
  join_surrogates-StepLeaves n (a ∷ b ∷ s) = elim (Bool-cases (a == 92 && b == b'u')) [
    | inr e ↦ rw e (omega arith)
    | inl e ↦ elim (Option-cases (four_digits s)) [
      | inl h ↦ rw (e, h) refl
      | inr ((m, r), h) ↦
          let k = four_digits-length s r m h in
          elim (Bool-cases (is_low_surrogate m)) [
            | inl low ↦ rw (e, h, low) (omega (arith, k))
            | inr high ↦ rw (e, h, high) (omega arith)
          ]
    ]
  ]

  StepLeaves-weaker : (m n : ℕ) (p : Result Step) → StepLeaves m p → m ≤ n → StepLeaves n p
  StepLeaves-weaker m n (ok (finished r)) h k = omega (arith, h, k)
  StepLeaves-weaker m n (ok (char c r)) h k = omega (arith, h, k)
  StepLeaves-weaker m n (err e) h k = h

  unicode_step-StepLeaves : (s : Text) → StepLeaves (length s) (unicode_step s)
  unfolding unicode_step
  unicode_step-StepLeaves s = elim (Option-cases (four_digits s)) [
    | inl h ↦ rw (h, unicode_step) refl
    | inr ((n, r), h) ↦
        let k = four_digits-length s r n h in
        elim (Bool-cases (is_high_surrogate n)) [
          | inl high ↦
              rw (h, high, unicode_step)
                (StepLeaves-weaker (length r) (length s) (join_surrogates n r)
                  (join_surrogates-StepLeaves n r) k)
          | inr low ↦ rw (h, low, unicode_step) k
        ]
  ]

  choose :
      (n : ℕ) (b : Bool) (p q : Result Step)
      → StepLeaves n p
      → StepLeaves n q
      → StepLeaves n (if b then p else q)
  choose n true p q h k = h
  choose n false p q h k = k

  escape_step-StepLeaves : (s : Text) → StepLeaves (length s) (escape_step s)
  unfolding escape_step
  escape_step-StepLeaves [] = refl
  escape_step-StepLeaves (c ∷ s) =
      let n = suc (length s) in
      let stays : length s ≤ n = omega arith in
      let k = StepLeaves-weaker (length s) n (unicode_step s) (unicode_step-StepLeaves s) stays in
      choose n (c == 34) _ _ stays (
        choose n (c == 92) _ _ stays (
          choose n (c == b'/') _ _ stays (
            choose n (c == b'b') _ _ stays (
              choose n (c == b'f') _ _ stays (
                choose n (c == b'n') _ _ stays (
                  choose n (c == b'r') _ _ stays
                    (choose n (c == b't') _ _ stays (choose n (c == b'u') _ _ k refl))))))))

  -- A step takes at least one character.
  string_step-StepLeaves : (c : ℕ) (s : Text) → StepLeaves (length s) (string_step (c ∷ s))
  unfolding string_step
  string_step-StepLeaves c s =
      let stays : length s ≤ length s = omega arith in
      choose (length s) (c == 34) _ _ stays (
        choose (length s) (c == 92) _ _ (escape_step-StepLeaves s)
          (choose (length s) (ltb c 32) _ _ refl stays))

  string_loop-Leaves : (f : ℕ) (s : Text) → length s < f → Leaves (length s) (string_loop f s)
  unfolding string_loop string_step
  string_loop-Leaves zero s h = absurd (omega (arith, h))
  string_loop-Leaves (suc f) [] h = refl
  string_loop-Leaves (suc f) (c ∷ s) h =
      step (λ r k. string_loop-Leaves f r (omega (arith, h, k))) (string_step (c ∷ s))
        (string_step-StepLeaves c s)
    where
      step :
          ((r : Text) → length r ≤ length s → Leaves (length r) (string_loop f r))
          → (p : Result Step) → StepLeaves (length s) p
          → Leaves {A = Text} (suc (length s)) (
              p >>= λ x. elim x [
                | finished r ↦ ok ([], r)
                | char d r ↦ string_loop f r >>= λ (t, r'). ok (d ∷ t, r')
              ])
      step loop (err e) k = k
      step loop (ok (finished r)) k = omega (arith, k)
      step loop (ok (char d r)) k =
          >>=-Leaves (length r) (suc (length s)) (string_loop f r) _ (loop r k)
            λ t r' j. omega (arith, j, k)

  pub scan_string-Leaves : (s : Text) → Leaves (length s) (scan_string s)
  unfolding scan_string
  scan_string-Leaves s = string_loop-Leaves (suc (length s)) s (omega arith)

  span_digits-length : (s : Text) → length (span_digits s).1 ≤ length s
  unfolding span_digits
  span_digits-length [] = omega arith
  span_digits-length (c ∷ s) = elim (Bool-cases (is_digit c)) [
    | inl e ↦ rw e (let k = span_digits-length s in omega (arith, k))
    | inr e ↦ rw e (omega arith)
  ]

  pub int_of_digits-error : (s : Text) (e : Error) → int_of_digits s ≡ err e → e.kind ≡ value_error
  unfolding int_of_digits
  int_of_digits-error s e h = elim (Bool-cases (ltb 4300 (length s))) [
    | inl long ↦
        let k : raise value_error "" "Exceeds the limit for integer string conversion" ≡ err e =
          rw long at h in
        cc
    | inr short ↦ absurd (let k = rw short at h in cc)
  ]

  number_end-Leaves : (negative : Bool) (ds r : Text) → Leaves (length r) (number_end negative ds r)
  unfolding number_end
  number_end-Leaves negative ds r = elim (Bool-cases (starts_float r)) [
    | inl float ↦ rw float refl
    | inr whole ↦ rw whole (number (int_of_digits ds) (λ e h. rw (int_of_digits-error ds e h) refl))
  ]
    where
      number :
          (p : Result ℕ)
          → ((e : Error) → p ≡ err e → is_refusal_at shallow e.kind ≡ true)
          → Leaves (length r) (p >>= λ n. ok (Value.int (signed negative n), r))
      number (ok n) h = omega arith
      number (err e) h = h e refl

  unsigned_number-Leaves :
      (negative : Bool) (s : Text) → Leaves (length s) (unsigned_number negative s)
  unfolding unsigned_number
  unsigned_number-Leaves negative [] = refl
  unsigned_number-Leaves negative (c ∷ s) = elim (Bool-cases (c == b'0')) [
    | inl is_zero ↦ rw is_zero (
        Leaves-weaker (length s) (suc (length s)) _ (number_end-Leaves negative (c ∷ []) s)
          (omega arith))
    | inr not_zero ↦ elim (Bool-cases (is_digit c)) [
      | inr letter ↦ rw (not_zero, letter) refl
      | inl digit ↦
          let k = span_digits-length s in
          rw (not_zero, digit)
            (Leaves-weaker (length (span_digits s).1) (suc (length s)) _
              (number_end-Leaves negative (c ∷ (span_digits s).0) (span_digits s).1)
              (omega (arith, k)))
    ]
  ]

  scan_number-Leaves : (s : Text) → Leaves (length s) (scan_number s)
  unfolding scan_number
  scan_number-Leaves [] = refl
  scan_number-Leaves (c ∷ s) = elim (Bool-cases (c == b'-')) [
    | inl minus ↦
        rw minus (
          Leaves-weaker (length s) (suc (length s)) _ (unsigned_number-Leaves true s) (omega arith))
    | inr plus ↦ rw plus (unsigned_number-Leaves false (c ∷ s))
  ]

  pub scan_scalar-Leaves : (s : Text) → Leaves (length s) (scan_scalar s)
  unfolding scan_scalar
  scan_scalar-Leaves s = elim (Option-cases (after_prefix (codes "null") s)) [
    | inr (r, h) ↦ rw (h, scan_scalar) (after_prefix-length (codes "null") s r h)
    | inl h ↦ elim (Option-cases (after_prefix (codes "true") s)) [
      | inr (r, i) ↦ rw (h, i, scan_scalar) (after_prefix-length (codes "true") s r i)
      | inl i ↦ elim (Option-cases (after_prefix (codes "false") s)) [
        | inr (r, j) ↦ rw (h, i, j, scan_scalar) (after_prefix-length (codes "false") s r j)
        | inl j ↦ elim (Option-cases (after_prefix (codes "NaN") s)) [
          | inr (r, k) ↦ rw (h, i, j, k, scan_scalar) refl
          | inl k ↦ elim (Option-cases (after_prefix (codes "Infinity") s)) [
            | inr (r, l) ↦ rw (h, i, j, k, l, scan_scalar) refl
            | inl l ↦ elim (Option-cases (after_prefix (codes "-Infinity") s)) [
              | inr (r, m) ↦ rw (h, i, j, k, l, m, scan_scalar) refl
              | inl m ↦ rw (h, i, j, k, l, m, scan_scalar) (scan_number-Leaves s)
            ]
          ]
        ]
      ]
    ]
  ]
