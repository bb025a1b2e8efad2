-- ===== src/Strconv.antt =====
-- What the code uses of Go's strconv and strings packages: decimal numbers, TrimSpace,
-- HasPrefix, Index and ReplaceAll, over lists of code points.
pub mod Decimal
pub mod Trim
pub mod Search
