-- ===== src/Canon/RoundTrip.antt =====
-- Canonical JSON is read back as the document it was made of, up to the order of keys.
use qnty_authority_root.Prelude.{◌≡◌}
use qnty_authority_root.Errors.{ok}
use qnty_authority_root.Utf8.{encode-ascii, decode-ascii}
use qnty_authority_root.Json.Values.{Value}
use qnty_authority_root.Json.Print.{print, dumps, sort_keys}
use qnty_authority_root.Json.RoundTrip.Printable.{IsPrintable}
use qnty_authority_root.Json.RoundTrip.Documents.{loads-print}
use qnty_authority_root.Json.RoundTrip.Sorting.{print-IsAscii, sort_keys-IsPrintable}
use qnty_authority_root.Canon.{decoded, strict_json_loads, canonical_json_str, canonical_json_bytes}

pub canonical_json_bytes_lem : (v : Value) → canonical_json_bytes v ≡ print (sort_keys v)
unfolding canonical_json_bytes canonical_json_str dumps
canonical_json_bytes_lem v = encode-ascii (print (sort_keys v)) (print-IsAscii (sort_keys v))

strict_json_loads-print : (v : Value) → IsPrintable v → strict_json_loads (print v) ≡ ok v
unfolding strict_json_loads
strict_json_loads-print v h =
    rw (decode-ascii (print v) (print-IsAscii v), strict_json_loads, decoded)
      (loads-print v h (print-IsAscii v))

-- A document whose texts have no surrogates, whose numbers have at most 4300 digits and whose objects
-- repeat no key is read back from its canonical bytes, with its keys sorted.
pub strict_json_loads-canonical_json_bytes :
    (v : Value) → IsPrintable v → strict_json_loads (canonical_json_bytes v) ≡ ok (sort_keys v)
strict_json_loads-canonical_json_bytes v h =
    rw (canonical_json_bytes_lem v)
      (strict_json_loads-print (sort_keys v) (sort_keys-IsPrintable v h))
