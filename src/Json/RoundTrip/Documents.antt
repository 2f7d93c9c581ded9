-- ===== src/Json/RoundTrip/Documents.antt =====
-- `scan_value` reads a printed document back, whatever follows it.
use mathlib.Core.List.{append-nil, append_assoc}
use qnty_authority_root.Prelude.{
  ℕ, zero, suc, ◌+◌, ◌*◌, ◌≤◌, ◌≡◌, refl, ap, ◌∙◌, inl, inr, subst, false, none, [], ◌∷◌, ◌++◌,
  Text, length, length-append, All, arith,
}
use qnty_authority_root.Errors.{ok}
use qnty_authority_root.Utf8.{IsAscii}
use qnty_authority_root.Json.Values.{
  Value, null, bool, int, str, arr, obj, Items, nil, cons, Fields, end, field,
}
use qnty_authority_root.Json.Escape.{print_string}
use qnty_authority_root.Json.Print.{print, print_items, print_fields}
use qnty_authority_root.Json.Scan.{
  is_space, skip_space, after, has_duplicates, reject_duplicate_keys, start, items_tail,
  field_value, array_inside, object_inside, scan_value, scan_items, scan_fields, whole, loads,
  loads_within, entering,
}
use qnty_authority_root.Json.RoundTrip.Strings.{IsScalar, scan_string-print_string}
use qnty_authority_root.Json.RoundTrip.Printable.{IsPrintable, ArePrintable, HavePrintable}
use qnty_authority_root.Json.RoundTrip.Parts.{
  StartsValue, StartsValue-append, StartsValue-print, skip_space-StartsValue, ReadsBack,
  ReadsBack-int, ReadsBack-null, ReadsBack-bool, ReadsBack-str, items_tail-close, items_tail-more,
  array_inside-items, field_tail-close, field_tail-more, field_value-print, object_inside-fields,
}

-- `scan_items` and `scan_fields` behind a printed value, given what is scanned after it.
abbrev ItemsReadBack : Items → Type 0
ItemsReadBack xs =
    (x : Value)
    → ReadsBack x
    → (f d : ℕ) (r : Text) → 2 * (length (print x) + length (print_items xs)) + 1 ≤ f
    → length (print x) + length (print_items xs) ≤ d
    → scan_items f d (print x ++ (print_items xs ++ r)) ≡ ok (cons x xs, r)

abbrev field_text : Text → Value → Fields → Text → Text
field_text k v fs r = print_string k ++ b':' ∷ (print v ++ (print_fields fs ++ r))

abbrev FieldsReadBack : Fields → Type 0
FieldsReadBack fs =
    (k : Text) (v : Value)
    → All IsScalar k
    → ReadsBack v
    → (f d : ℕ) (r : Text) → 2 * (length (print v) + length (print_fields fs)) + 1 ≤ f
    → length (print v) + length (print_fields fs) ≤ d
    → scan_fields f d (field_text k v fs r) ≡ ok (field k v fs, r)

StartsValue-print-append : (v : Value) (r : Text) → StartsValue (print v ++ r)
StartsValue-print-append v r = StartsValue-append (print v) r (StartsValue-print v)

items_step :
    (f d : ℕ) (s s' : Text) (v : Value)
    → scan_value f d s ≡ ok (v, s')
    → scan_items (suc f) d s ≡ items_tail (scan_items f d) v s'
unfolding scan_items
items_step f d s s' v h = rw (h, scan_items)

ItemsReadBack-nil : ItemsReadBack nil
unfolding print_items
ItemsReadBack-nil x reads zero d r fuel deep = absurd (omega arith)
ItemsReadBack-nil x reads (suc f) d r fuel deep =
    items_step f d (print x ++ b']' ∷ r) (b']' ∷ r) x
      (reads f d (b']' ∷ r) (inr (inl refl)) (omega arith) (omega arith))
    ∙ items_tail-close (scan_items f d) x r

ItemsReadBack-cons :
    (y : Value) (ys : Items) → ReadsBack y → ItemsReadBack ys → ItemsReadBack (cons y ys)
unfolding print_items
ItemsReadBack-cons y ys reads_y rest x reads zero d r fuel deep = absurd (omega arith)
ItemsReadBack-cons y ys reads_y rest x reads (suc f) d r fuel deep =
    let t = print y ++ (print_items ys ++ r) in
    rw (append_assoc (print y) (print_items ys) r) (
      items_step f d (print x ++ b',' ∷ t) (b',' ∷ t) x (
        reads f d (b',' ∷ t) (inl refl)
          (omega (arith, length-append {0} (print y) (print_items ys)))
          (omega (arith, length-append {0} (print y) (print_items ys))))
      ∙ items_tail-more (scan_items f d) x (cons y ys) t r (StartsValue-print-append y _) (
          rest y reads_y f d r (omega (arith, length-append {0} (print y) (print_items ys)))
            (omega (arith, length-append {0} (print y) (print_items ys)))))

fields_step :
    (f d : ℕ) (k : Text) (s : Text)
    → All IsScalar k
    → scan_fields (suc f) d (print_string k ++ s)
      ≡ field_value (scan_value f d) (scan_fields f d) k s
unfolding scan_fields print_string after
fields_step f d k s h = rw (scan_string-print_string k s h, scan_fields)

FieldsReadBack-end : FieldsReadBack end
unfolding print_fields
FieldsReadBack-end k v scalar reads zero d r fuel deep = absurd (omega arith)
FieldsReadBack-end k v scalar reads (suc f) d r fuel deep =
    fields_step f d k (b':' ∷ (print v ++ b'}' ∷ r)) scalar
    ∙ field_value-print (scan_fields f d) (scan_value f d) k v (print v ++ b'}' ∷ r) (b'}' ∷ r)
        (StartsValue-print-append v _)
        (reads f d (b'}' ∷ r) (inr (inr refl)) (omega arith) (omega arith))
    ∙ field_tail-close (scan_fields f d) k v r

-- The text of a field, whose parts are printed one after the other.
field_text-append :
    (k : Text) (v : Value) (fs : Fields) (r : Text)
    → (print_string k ++ b':' ∷ (print v ++ print_fields fs)) ++ r ≡ field_text k v fs r
field_text-append k v fs r =
    append_assoc (print_string k) (b':' ∷ (print v ++ print_fields fs)) r
    ∙ ap (λ t. print_string k ++ b':' ∷ t) (append_assoc (print v) (print_fields fs) r)

length-field_text :
    (k : Text) (v : Value) (fs : Fields)
    → length (print v) + length (print_fields fs) + 1
      ≤ length (print_string k ++ b':' ∷ (print v ++ print_fields fs))
length-field_text k v fs = omega (
  arith,
  length-append {0} (print_string k) (b':' ∷ (print v ++ print_fields fs)),
  length-append {0} (print v) (print_fields fs),
)

StartsValue-field_text :
    (k : Text) (v : Value) (fs : Fields) (r : Text) → StartsValue (field_text k v fs r)
unfolding print_string
StartsValue-field_text k v fs r = ground arith

FieldsReadBack-field :
    (j : Text) (w : Value) (fs : Fields)
    → All IsScalar j
    → ReadsBack w
    → FieldsReadBack fs
    → FieldsReadBack (field j w fs)
unfolding print_fields
FieldsReadBack-field j w fs scalar_j reads_w rest k v scalar reads zero d r fuel deep =
    absurd (omega arith)
FieldsReadBack-field j w fs scalar_j reads_w rest k v scalar reads (suc f) d r fuel deep =
    let t = field_text j w fs r in
    rw (field_text-append j w fs r) (
      fields_step f d k (b':' ∷ (print v ++ b',' ∷ t)) scalar
      ∙ field_value-print (scan_fields f d) (scan_value f d) k v (print v ++ b',' ∷ t) (b',' ∷ t)
          (StartsValue-print-append v _)
          (reads f d (b',' ∷ t) (inl refl) (omega (arith, length-field_text j w fs))
            (omega (arith, length-field_text j w fs)))
      ∙ field_tail-more (scan_fields f d) k v (field j w fs) t r (StartsValue-field_text j w fs r) (
          rest j w scalar_j reads_w f d r (omega (arith, length-field_text j w fs))
            (omega (arith, length-field_text j w fs))))

ReadsBack-arr :
    (x : Value) (xs : Items) → ReadsBack x → ItemsReadBack xs → ReadsBack (arr (cons x xs))
unfolding print scan_value entering start
ReadsBack-arr x xs reads rest zero d r e fuel deep = absurd (omega arith)
ReadsBack-arr x xs reads rest (suc f) zero r e fuel deep = absurd (omega arith)
ReadsBack-arr x xs reads rest (suc f) (suc d) r e fuel deep =
    rw (append_assoc (print x) (print_items xs) r) (
      array_inside-items (scan_items f d) (cons x xs) (print x ++ (print_items xs ++ r)) r
        (StartsValue-print-append x _)
        (rest x reads f d r (omega (arith, length-append {0} (print x) (print_items xs)))
          (omega (arith, length-append {0} (print x) (print_items xs)))))

object_inside-field_text :
    (f d : ℕ) (k : Text) (v : Value) (fs : Fields) (r : Text)
    → has_duplicates (field k v fs) ≡ false
    → scan_fields f d (field_text k v fs r) ≡ ok (field k v fs, r)
    → object_inside (scan_fields f d) (field_text k v fs r) ≡ ok (obj (field k v fs), r)
unfolding print_string
object_inside-field_text f d k v fs r distinct h =
    object_inside-fields (scan_fields f d) (field k v fs) _ r distinct h

ReadsBack-obj :
    (k : Text) (v : Value) (fs : Fields)
    → has_duplicates (field k v fs) ≡ false
    → All IsScalar k
    → ReadsBack v
    → FieldsReadBack fs
    → ReadsBack (obj (field k v fs))
unfolding print scan_value entering start
ReadsBack-obj k v fs distinct scalar reads rest zero d r e fuel deep = absurd (omega arith)
ReadsBack-obj k v fs distinct scalar reads rest (suc f) zero r e fuel deep = absurd (omega arith)
ReadsBack-obj k v fs distinct scalar reads rest (suc f) (suc d) r e fuel deep =
    rw (field_text-append k v fs r) (
      object_inside-field_text f d k v fs r distinct (
        rest k v scalar reads f d r (omega (arith, length-field_text k v fs))
          (omega (arith, length-field_text k v fs))))

ReadsBack-nil : ReadsBack (arr nil)
unfolding print scan_value entering start array_inside skip_space is_space after
ReadsBack-nil zero d r e fuel deep = absurd (omega arith)
ReadsBack-nil (suc f) zero r e fuel deep = absurd (omega arith)
ReadsBack-nil (suc f) (suc d) r e fuel deep = refl

ReadsBack-end : ReadsBack (obj end)
unfolding print scan_value entering start object_inside skip_space is_space after
    reject_duplicate_keys has_duplicates
ReadsBack-end zero d r e fuel deep = absurd (omega arith)
ReadsBack-end (suc f) zero r e fuel deep = absurd (omega arith)
ReadsBack-end (suc f) (suc d) r e fuel deep = refl

mutual
  ReadsBack-print : (v : Value) → IsPrintable v → ReadsBack v
  ReadsBack-print null h = ReadsBack-null
  ReadsBack-print (bool b) h = ReadsBack-bool b
  ReadsBack-print (int n) h = ReadsBack-int n h
  ReadsBack-print (str s) h = ReadsBack-str s h
  ReadsBack-print (arr nil) h = ReadsBack-nil
  ReadsBack-print (arr (cons x xs)) h =
      ReadsBack-arr x xs (ReadsBack-print x h.0) (ItemsReadBack-print xs h.1)
  ReadsBack-print (obj end) h = ReadsBack-end
  ReadsBack-print (obj (field k v fs)) h =
      ReadsBack-obj k v fs h.0 h.1.0 (ReadsBack-print v h.1.1.0) (FieldsReadBack-print fs h.1.1.1)

  ItemsReadBack-print : (xs : Items) → ArePrintable xs → ItemsReadBack xs
  ItemsReadBack-print nil h = ItemsReadBack-nil
  ItemsReadBack-print (cons y ys) h =
      ItemsReadBack-cons y ys (ReadsBack-print y h.0) (ItemsReadBack-print ys h.1)

  FieldsReadBack-print : (fs : Fields) → HavePrintable fs → FieldsReadBack fs
  FieldsReadBack-print end h = FieldsReadBack-end
  FieldsReadBack-print (field j w fs) h =
      FieldsReadBack-field j w fs h.0 (ReadsBack-print w h.1.0) (FieldsReadBack-print fs h.1.1)

after-bom : (s : Text) → StartsValue s → IsAscii s → after 0xfeff s ≡ none
unfolding after
after-bom [] h ascii = absurd h
after-bom (c ∷ s) h ascii = ground arith

-- A whole text that is a printed document is loaded as the document.
pub loads-print : (v : Value) → IsPrintable v → IsAscii (print v) → loads (print v) ≡ ok v
unfolding loads loads_within whole
loads-print v h ascii =
    let s = print v in
    let starts = StartsValue-print v in
    let scanned : scan_value (2 * length s + 2) (length s) s ≡ ok (v, []) =
      subst (λ t. scan_value (2 * length s + 2) (length s) t ≡ ok (v, [])) (append-nil s)
        (ReadsBack-print v h (2 * length s + 2) (length s) [] tt (omega arith) (omega arith)) in
    rw (after-bom s starts ascii, skip_space-StartsValue s starts, loads, loads_within)
      (rw scanned (unfold skip_space in refl))
