-- ===== src/Python.antt =====
-- The values that the Python code handles without a static type: DynamoDB attributes and
-- decoded JSON. `dict` keeps its entries in insertion order.
mod Int
mod Values
mod Writes
mod Text
pub use Int.*
pub use Values.*
unfoldable pub use Values.{integral, natural, value_eq, same_keys}
pub use Writes.*
pub use Text.*
unfoldable pub use Text.{matches, pad, pad_hex, split, hex_number, take, lower_is, is_uuid4}
