-- ===== src/TreeMap.antt =====
-- `std::collections::BTreeMap`: an association list in ascending key order. What the program uses
-- of it: `new`, `insert`, `get`, `contains_key`, a write through `get_mut`, and `values`.
mod Defs
pub mod Lookup
pub mod Sorted
pub mod Rebuild
pub mod Values
unfoldable pub use Defs.{
  TreeMap, empty, insert, get, contains_key, modify, values, from_values, Above, IsSorted,
}
