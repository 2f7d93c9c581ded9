-- ===== src/Json/RoundTrip.antt =====
-- What `dumps` prints is read back by `loads` as the same document.
pub mod Strings
pub mod Printable
pub mod Numbers
pub mod Parts
pub mod Documents
pub mod Sorting
