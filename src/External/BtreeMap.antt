-- ===== src/External/BtreeMap.antt =====
-- `absl::btree_map<uint64_t, uint64_t, Compare>`: a map that iterates in the order of its
-- comparator. The order book keeps its two sides in such maps.
mod Order
mod Sorted
mod Unique
pub use Order.*
pub use Unique.*
unfoldable pub use Sorted.*
