-- ===== src/Canon/Shape.antt =====
-- A digest is 64 lowercase hexadecimal characters.
use qnty_authority_root.Prelude.{Bytes, arith}
use qnty_authority_root.Regex.Runs.{IsRun}
use qnty_authority_root.Sha256.{sha256}
use qnty_authority_root.Sha256.Shape.{is_lower_hex, hex-All, length-hex, length-sha256}
use qnty_authority_root.Canon.{sha256_hex}

pub sha256_hex-IsRun : (s : Bytes) → IsRun is_lower_hex 64 (sha256_hex s)
unfolding sha256_hex
sha256_hex-IsRun s = (omega (arith, length-hex (sha256 s), length-sha256 s), hex-All (sha256 s))
