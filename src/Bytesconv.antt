-- ===== src/Bytesconv.antt =====
-- bytesconv.go, bytesconv_table_gen.go and supplement_utils.go: conversions between byte strings
-- and numbers, and the byte tables.
pub mod Tables
pub mod Decimal
pub mod Hex
pub mod Quote
pub mod Html
pub mod Ip
