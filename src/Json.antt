-- ===== src/Json.antt =====
-- JSON documents as Python holds them, with the `json` module's
-- `dumps` and `loads` as src/qnty_authority_root/canon.py calls them.
pub mod Values
pub mod Escape
pub mod Print
pub mod Scan
pub mod Access
pub mod Equal
pub mod RoundTrip
pub mod Total
pub use Values.{Value, null, bool, int, str, arr, obj, Items, nil, cons, Fields, end, field}
