-- ===== src/Json/Total/Nested.antt =====
-- The values with parts: enough fuel for a text is more than twice its length.
use qnty_authority_root.Prelude.{
  ◌≡◌, refl, inl, inr, ℕ, zero, suc, ◌+◌, ◌*◌, ◌≤◌, ◌<◌, Bool, true, false, not, Bool-cases,
  Option-cases, [], ◌∷◌, Text, length, ◌==◌, arith,
}
use qnty_authority_root.Errors.{Result, ok, err, ◌>>=◌}
use qnty_authority_root.Json.Values.{Value, Items, Fields}
use qnty_authority_root.Json.Scan.{
  skip_space, after, Separator, more, close, bad, separator, has_duplicates, reject_duplicate_keys,
  Start, quote, brace, bracket, other, start, items_tail, field_tail, field_value, array_inside,
  object_inside, string_value, scan_value, scan_items, scan_fields, whole, loads_within, entering,
}
use qnty_authority_root.Json.Scan.Strings.{scan_string}
use qnty_authority_root.Json.Total.{
  is_refusal_at, Leaves, Leaves-weaker, >>=-Leaves, skip_space-length, after-length,
  scan_string-Leaves, scan_scalar-Leaves,
}

module _ (shallow : Bool) where
  -- A scan whose texts are shorter than `n`.
  abbrev Below {ℓ} : {A : Type ℓ} → ℕ → (Text → Result (A × Text)) → Type 0
  Below n scan = (t : Text) → length t < n → Leaves shallow (length t) (scan t)

  abbrev SeparatorLeaves : ℕ → Separator → Type 0
  SeparatorLeaves n (more r) = length r < n
  SeparatorLeaves n (close r) = length r < n
  SeparatorLeaves n bad = Unit

  separator-Leaves : (b : ℕ) (s : Text) → SeparatorLeaves (length s) (separator b s)
  unfolding separator
  separator-Leaves b [] = tt
  separator-Leaves b (c ∷ s) = elim (Bool-cases (c == b',')) [
    | inl e ↦ rw e (omega arith)
    | inr e ↦ elim (Bool-cases (c == b)) [ inl k ↦ rw (e, k) (omega arith) | inr k ↦ rw (e, k) tt ]
  ]

  SeparatorLeaves-weaker :
      (m n : ℕ) (p : Separator) → SeparatorLeaves m p → m ≤ n → SeparatorLeaves n p
  SeparatorLeaves-weaker m n (more r) h k = omega (arith, h, k)
  SeparatorLeaves-weaker m n (close r) h k = omega (arith, h, k)
  SeparatorLeaves-weaker m n bad h k = tt

  -- The scan behind white space.
  skipped {ℓ} :
      {A : Type ℓ} (n : ℕ) (scan : Text → Result (A × Text)) (r : Text)
      → Below n scan
      → length r < n
      → Leaves shallow (length r) (scan (skip_space r))
  skipped n scan r below h =
      let k = skip_space-length shallow r in
      Leaves-weaker shallow (length (skip_space r)) (length r) (scan (skip_space r))
        (below (skip_space r) (omega (arith, k, h))) k

  items_tail-Leaves :
      (scan : Text → Result (Items × Text)) (v : Value) (r : Text)
      → Below (length r) scan
      → Leaves shallow (length r) (items_tail scan v r)
  unfolding items_tail
  items_tail-Leaves scan v r below =
      tail (separator b']' (skip_space r))
        (SeparatorLeaves-weaker (length (skip_space r)) (length r) (separator b']' (skip_space r))
          (separator-Leaves b']' (skip_space r)) (skip_space-length shallow r))
        refl
    where
      tail :
          (p : Separator)
          → SeparatorLeaves (length r) p
          → separator b']' (skip_space r) ≡ p
          → Leaves shallow (length r) (items_tail scan v r)
      tail (more t) h e =
          rw (e, items_tail)
            (>>=-Leaves shallow (length t) (length r) (scan (skip_space t)) _
              (skipped (length r) scan t below h) λ xs u k. omega (arith, k, h))
      tail (close t) h e = rw (e, items_tail) (omega (arith, h))
      tail bad h e = rw (e, items_tail) refl

  field_tail-Leaves :
      (scan : Text → Result (Fields × Text)) (key : Text) (v : Value) (r : Text)
      → Below (length r) scan
      → Leaves shallow (length r) (field_tail scan key v r)
  unfolding field_tail
  field_tail-Leaves scan key v r below =
      tail (separator b'}' (skip_space r))
        (SeparatorLeaves-weaker (length (skip_space r)) (length r) (separator b'}' (skip_space r))
          (separator-Leaves b'}' (skip_space r)) (skip_space-length shallow r))
        refl
    where
      tail :
          (p : Separator)
          → SeparatorLeaves (length r) p
          → separator b'}' (skip_space r) ≡ p
          → Leaves shallow (length r) (field_tail scan key v r)
      tail (more t) h e =
          rw (e, field_tail)
            (>>=-Leaves shallow (length t) (length r) (scan (skip_space t)) _
              (skipped (length r) scan t below h) λ xs u k. omega (arith, k, h))
      tail (close t) h e = rw (e, field_tail) (omega (arith, h))
      tail bad h e = rw (e, field_tail) refl

  Below-weaker {ℓ} :
      {A : Type ℓ} (m n : ℕ) (scan : Text → Result (A × Text)) → Below n scan → m ≤ n → Below m scan
  Below-weaker m n scan below h t k = below t (omega (arith, h, k))

  field_value-Leaves :
      (value : Text → Result (Value × Text)) (fields : Text → Result (Fields × Text)) (key r : Text)
      → Below (length r) value
      → Below (length r) fields
      → Leaves shallow (length r) (field_value value fields key r)
  unfolding field_value
  field_value-Leaves value fields key r below_value below_fields =
      elim (Option-cases (after b':' (skip_space r))) [
        | inl missing ↦ rw (missing, field_value) refl
        | inr (t, found) ↦
            let n = after-length shallow b':' (skip_space r) t found in
            let m = skip_space-length shallow r in
            let shorter : length t < length r = omega (arith, n, m) in
            rw (found, field_value)
              (>>=-Leaves shallow (length t) (length r) (value (skip_space t)) _
                (skipped (length r) value t below_value shorter)
                λ v u k.
                  Leaves-weaker shallow (length u) (length r) (field_tail fields key v u)
                    (field_tail-Leaves fields key v u (
                      Below-weaker (length u) (length r) fields below_fields
                        (omega (arith, k, shorter))))
                    (omega (arith, k, shorter)))
      ]

  array_inside-Leaves :
      (items : Text → Result (Items × Text)) (s : Text)
      → Below (suc (length s)) items
      → Leaves shallow (length s) (array_inside items s)
  unfolding array_inside
  array_inside-Leaves items s below = elim (Option-cases (after b']' (skip_space s))) [
    | inr (r, found) ↦
        let n = after-length shallow b']' (skip_space s) r found in
        let m = skip_space-length shallow s in rw (found, array_inside) (omega (arith, n, m))
    | inl none_yet ↦
        rw (none_yet, array_inside)
          (>>=-Leaves shallow (length s) (length s) (items (skip_space s)) _
            (skipped (suc (length s)) items s below (omega arith)) λ xs r k. k)
  ]

  object_inside-Leaves :
      (fields : Text → Result (Fields × Text)) (s : Text)
      → Below (suc (length s)) fields
      → Leaves shallow (length s) (object_inside fields s)
  unfolding object_inside reject_duplicate_keys has_duplicates
  object_inside-Leaves fields s below = elim (Option-cases (after b'}' (skip_space s))) [
    | inr (r, found) ↦
        let n = after-length shallow b'}' (skip_space s) r found in
        let m = skip_space-length shallow s in rw (found, object_inside) (omega (arith, n, m))
    | inl none_yet ↦
        rw (none_yet, object_inside)
          (>>=-Leaves shallow (length s) (length s) (fields (skip_space s)) _
            (skipped (suc (length s)) fields s below (omega arith))
            λ fs r k. checked fs r k (has_duplicates fs) refl)
  ]
    where
      checked :
          (fs : Fields) (r : Text)
          → length r ≤ length s
          → (b : Bool) → has_duplicates fs ≡ b
          → Leaves shallow (length s) (reject_duplicate_keys fs >>= λ v. ok (v, r))
      checked fs r k true e = rw e refl
      checked fs r k false e = rw e k

  -- A shallow text is no longer than the depth that is left.
  abbrev Fits : ℕ → Text → Type 0
  Fits d s = shallow ≡ true → length s ≤ d

  -- The three scans at fuel `f`.
  abbrev AllLeave : ℕ → Type 0
  AllLeave f =
      ((d : ℕ) (s : Text)
        → 2 * length s + 1 ≤ f
        → Fits d s
        → Leaves shallow (length s) (scan_value f d s))
      × ((d : ℕ) (s : Text)
          → 2 * length s + 2 ≤ f
          → Fits d s
          → Leaves shallow (length s) (scan_items f d s))
      × ((d : ℕ) (s : Text)
          → 2 * length s + 2 ≤ f
          → Fits d s
          → Leaves shallow (length s) (scan_fields f d s))

  not-true : (b : Bool) → (b ≡ true → ⊥) → not b ≡ true
  not-true true h = absurd (h refl)
  not-true false h = refl

  entering-Leaves :
      (n d : ℕ) (inside : ℕ → Result (Value × Text))
      → (shallow ≡ true → 0 < d)
      → ((k : ℕ) → d ≡ suc k → Leaves shallow n (inside k))
      → Leaves shallow n (entering d inside)
  unfolding entering
  entering-Leaves n zero inside deep h = not-true shallow λ e. let k = deep e in omega (arith, k)
  entering-Leaves n (suc d) inside deep h = h d refl

  scan_value-next :
      (f : ℕ)
      → AllLeave f
      → (d : ℕ) (s : Text) → 2 * length s + 1 ≤ suc f
      → Fits d s
      → Leaves shallow (length s) (scan_value (suc f) d s)
  unfolding scan_value string_value
  scan_value-next f (value, items, fields) d [] h fits = refl
  scan_value-next f (value, items, fields) d (c ∷ s) h fits = begin (start c) refl
    where
      begin :
          (x : Start) → start c ≡ x → Leaves shallow (suc (length s)) (scan_value (suc f) d (c ∷ s))
      begin quote e =
          rw (e, scan_value)
            (>>=-Leaves shallow (length s) (suc (length s)) (scan_string s) _
              (scan_string-Leaves shallow s) λ t r k. omega (arith, k))
      begin brace e =
          rw (e, scan_value)
            (Leaves-weaker shallow (length s) (suc (length s)) _
              (entering-Leaves (length s) d _ (λ x. omega (arith, fits x))
                λ n below.
                  object_inside-Leaves (scan_fields f n) s (λ t k.
                    fields n t (omega (arith, h, k)) (λ x. omega (arith, k, below, fits x))))
              (omega arith))
      begin bracket e =
          rw (e, scan_value)
            (Leaves-weaker shallow (length s) (suc (length s)) _
              (entering-Leaves (length s) d _ (λ x. omega (arith, fits x))
                λ n below.
                  array_inside-Leaves (scan_items f n) s
                    (λ t k. items n t (omega (arith, h, k)) (λ x. omega (arith, k, below, fits x))))
              (omega arith))
      begin other e = rw (e, scan_value) (scan_scalar-Leaves shallow (c ∷ s))

  scan_items-next :
      (f : ℕ)
      → AllLeave f
      → (d : ℕ) (s : Text) → 2 * length s + 2 ≤ suc f
      → Fits d s
      → Leaves shallow (length s) (scan_items (suc f) d s)
  unfolding scan_items
  scan_items-next f (value, items, fields) d s h fits =
      >>=-Leaves shallow (length s) (length s) (scan_value f d s) _
        (value d s (omega (arith, h)) fits)
        λ v r k.
          Leaves-weaker shallow (length r) (length s) (items_tail (scan_items f d) v r)
            (items_tail-Leaves (scan_items f d) v r
              (λ t j. items d t (omega (arith, h, j, k)) (λ x. omega (arith, j, k, fits x))))
            k

  scan_fields-next :
      (f : ℕ)
      → AllLeave f
      → (d : ℕ) (s : Text) → 2 * length s + 2 ≤ suc f
      → Fits d s
      → Leaves shallow (length s) (scan_fields (suc f) d s)
  unfolding scan_fields
  scan_fields-next f (value, items, fields) d s h fits = elim (Option-cases (after 34 s)) [
    | inl missing ↦ rw (missing, scan_fields) refl
    | inr (r, found) ↦
        let n = after-length shallow 34 s r found in
        rw (found, scan_fields)
          (>>=-Leaves shallow (length r) (length s) (scan_string r) _ (scan_string-Leaves shallow r)
            λ key u k.
              Leaves-weaker shallow (length u) (length s)
                (field_value (scan_value f d) (scan_fields f d) key u)
                (field_value-Leaves (scan_value f d) (scan_fields f d) key u
                  (λ t j.
                    value d t (omega (arith, h, j, k, n)) (λ x. omega (arith, j, k, n, fits x)))
                  (λ t j.
                    fields d t (omega (arith, h, j, k, n)) (λ x. omega (arith, j, k, n, fits x))))
                (omega (arith, k, n)))
  ]

  all-AllLeave : (f : ℕ) → AllLeave f
  all-AllLeave zero = (
    (λ d s h fits. absurd (omega (arith, h))),
    (λ d s h fits. absurd (omega (arith, h))),
    λ d s h fits. absurd (omega (arith, h)),
  )
  all-AllLeave (suc f) =
      let below = all-AllLeave f in
      (scan_value-next f below, scan_items-next f below, scan_fields-next f below)

  abbrev pub IsRefusalAt {ℓ} : {A : Type ℓ} → Result A → Type 0
  IsRefusalAt (ok a) = Unit
  IsRefusalAt (err e) = is_refusal_at shallow e.kind ≡ true

  whole-IsRefusalAt : (v : Value) (r : Text) → IsRefusalAt (whole (v, r))
  unfolding whole
  whole-IsRefusalAt v r = last (skip_space r) refl
    where
      last : (t : Text) → skip_space r ≡ t → IsRefusalAt (whole (v, r))
      last [] e = rw (e, whole) tt
      last (c ∷ t) e = rw (e, whole) refl

  -- A text is read or refused, whatever the limit: the fuel does not run out.
  pub loads_within-IsRefusalAt :
      (limit : ℕ) (s : Text) → Fits limit s → IsRefusalAt (loads_within limit s)
  unfolding loads_within
  loads_within-IsRefusalAt limit s fits = elim (Option-cases (after 0xfeff s)) [
    | inr (r, mark) ↦ rw (mark, loads_within) refl
    | inl plain ↦
        let k = skip_space-length shallow s in
        rw (plain, loads_within)
          (ends (scan_value (2 * length s + 2) limit (skip_space s)) (
            (all-AllLeave (2 * length s + 2)).0 limit (skip_space s) (omega (arith, k))
              (λ x. omega (arith, k, fits x))))
  ]
    where
      ends :
          (p : Result (Value × Text))
          → Leaves shallow (length (skip_space s)) p
          → IsRefusalAt (p >>= whole)
      ends (ok (v, r)) h = whole-IsRefusalAt v r
      ends (err e) h = h

-- Read, or refused without a `RecursionError`.
abbrev pub IsRefusal {ℓ} : {A : Type ℓ} → Result A → Type 0
IsRefusal = IsRefusalAt true
