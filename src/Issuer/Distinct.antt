-- ===== src/Issuer/Distinct.antt =====
-- Rows of the ledger of src/qnty_authority_root/issuer.py that share no key, in the order of their
-- serial numbers.
use qnty_authority_root.Prelude.{
  ℕ, ◌+◌, ◌<◌, ◌≤◌, ◌≡◌, ◌≢◌, refl, inl, inr, false, List, [], ◌∷◌, ◌++◌, Text, some, none,
  Bool-cases, text_eq, text_eq_sound, text_eq_refl, arith, All, All-append,
}
use qnty_authority_root.Issuer.Ledger.{Row, find_row, max_serial, conflicts}

-- The older row `r` and the newer row `q` share no key, and `q` has the greater serial.
abbrev pub Precedes : Row → Row → Type 0
Precedes r q = (r.request_id ≢ q.request_id) × (r.serial < q.serial) × (r.receipt_id ≢ q.receipt_id)

-- The rows, in the order of insertion, precede each other.
abbrev pub IsLedger : List Row → Type 0
IsLedger [] = Unit
IsLedger (r ∷ rows) = All (λ q. Precedes r q) rows × IsLedger rows

max_serial-All : (m : ℕ) (rows : List Row) → max_serial rows ≤ m → All (λ r. r.serial ≤ m) rows
unfolding max_serial
max_serial-All m [] h = tt
max_serial-All m (r ∷ rows) h = (ground arith, max_serial-All m rows (ground arith))

conflicts-Precedes :
    (r : Row) (m : ℕ) (rows : List Row)
    → conflicts r rows ≡ false
    → All (λ q. q.serial ≤ m) rows
    → m < r.serial
    → All (λ q. Precedes q r) rows
unfolding conflicts
conflicts-Precedes r m [] h below above = tt
conflicts-Precedes r m (q ∷ rows) h below above = (
  (
    λ e. ground (arith, e, text_eq_refl q.request_id),
    omega (arith, below.0),
    λ e. ground (arith, e, text_eq_refl q.receipt_id),
  ),
  conflicts-Precedes r m rows (ground arith) below.1 above,
)

IsLedger-append :
    (rows : List Row) (r : Row)
    → IsLedger rows
    → All (λ q. Precedes q r) rows
    → IsLedger (rows ++ r ∷ [])
IsLedger-append [] r h k = (tt, tt)
IsLedger-append (q ∷ rows) r h k =
    (All-append _ rows (r ∷ []) h.0 (k.0, tt), IsLedger-append rows r h.1 k.1)

-- A row that breaks no constraint and has the serial after the greatest keeps a ledger a ledger.
pub IsLedger-next :
    (rows : List Row) (r : Row)
    → IsLedger rows
    → conflicts r rows ≡ false
    → r.serial ≡ max_serial rows + 1
    → IsLedger (rows ++ r ∷ [])
IsLedger-next rows r h free next = IsLedger-append rows r h (
    conflicts-Precedes r (max_serial rows) rows free
      (max_serial-All (max_serial rows) rows (omega arith)) (omega arith))

pub find_row-request_id :
    (request_id : Text) (rows : List Row) (row : Row)
    → find_row request_id rows ≡ some row
    → row.request_id ≡ request_id
unfolding find_row
find_row-request_id request_id [] row h = absurd cc
find_row-request_id request_id (r ∷ rows) row h =
    elim (Bool-cases (text_eq r.request_id request_id)) [
      | inl k ↦
          let e : some r ≡ some row = rw k at h in
          let same = text_eq_sound r.request_id request_id k in cc
      | inr k ↦ find_row-request_id request_id rows row (rw k at h)
    ]

-- What is found stays found behind more rows, and a new row is found behind rows that lack it.
pub find_row-append :
    (request_id : Text) (rows more : List Row) {row : Row}
    → find_row request_id rows ≡ some row
    → find_row request_id (rows ++ more) ≡ some row
unfolding find_row
find_row-append request_id [] more h = absurd cc
find_row-append request_id (r ∷ rows) more h = elim (Bool-cases (text_eq r.request_id request_id)) [
  | inl k ↦ rw k (rw k at h)
  | inr k ↦ rw k (find_row-append request_id rows more (rw k at h))
]

pub find_row-new :
    (request_id : Text) (rows : List Row) (row : Row)
    → find_row request_id rows ≡ none
    → row.request_id ≡ request_id
    → find_row request_id (rows ++ row ∷ []) ≡ some row
unfolding find_row
find_row-new request_id [] row h e = rw (e, text_eq_refl request_id) refl
find_row-new request_id (r ∷ rows) row h e = elim (Bool-cases (text_eq r.request_id request_id)) [
  | inl k ↦ absurd (ground (arith, rw k at h))
  | inr k ↦ rw k (find_row-new request_id rows row (rw k at h) e)
]
