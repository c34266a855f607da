-- ===== src/Decimal.antt =====
-- Whole numbers as texts of decimal digits: `_DIGITS` and `decimal_count` of
-- src/libranet/json_fields.py, over Python's own `str` and `int`. A text is the list of its code
-- points.
mod Defs
mod Laws
unfoldable pub use Defs.*
pub use Laws.*
