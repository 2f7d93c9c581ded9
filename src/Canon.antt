-- ===== src/Canon.antt =====
-- src/qnty_authority_root/canon.py: canonical JSON and SHA-256. `json`, `hashlib` and the codecs are
-- those of Python's standard library.
pub mod Shape
pub mod RoundTrip
pub mod Total
use qnty_authority_root.Prelude.{ℕ, Option, none, some, Bytes, Text}
use qnty_authority_root.Errors.{Result, ok, raise, ◌>>=◌, canonical_form_error}
use qnty_authority_root.Utf8.{decode, encode}
use qnty_authority_root.Json.Values.{Value}
use qnty_authority_root.Json.Print.{dumps}
use qnty_authority_root.Json.Scan.{loads, loads_within}
use qnty_authority_root.Sha256.{sha256, hex}

-- `strict_json_loads` of `bytes`, over a `json.loads`. The hooks that refuse duplicate keys, floats and
-- constants are in that.
abbrev pub decoded : (Text → Result Value) → Bytes → Result Value
decoded json_loads raw = elim (decode raw) [
  | none ↦ raise canonical_form_error "" "JSON is not valid UTF-8"
  | some text ↦ json_loads text
]

-- In an interpreter whose limit on recursion lets `limit` arrays and objects nest.
unfoldable pub strict_json_loads_within : ℕ → Bytes → Result Value
strict_json_loads_within limit raw = decoded (loads_within limit) raw

-- Where that limit is not reached.
unfoldable pub strict_json_loads : Bytes → Result Value
strict_json_loads raw = decoded loads raw

unfoldable pub canonical_json_str : Value → Text
canonical_json_str v = dumps v

unfoldable pub canonical_json_bytes : Value → Bytes
canonical_json_bytes v = encode (canonical_json_str v)

unfoldable pub sha256_hex : Bytes → Text
sha256_hex s = hex (sha256 s)

unfoldable pub digest_object : Value → Text
digest_object v = sha256_hex (canonical_json_bytes v)
