-- ===== src/Listing.antt =====
-- The list pipeline: ordering, filters, cursors and pages.
pub mod Values
pub mod Order
pub mod Sorting
pub mod Keys
pub mod Rows
pub mod Cuts
pub mod Cursors
pub mod RoundTrip
pub mod Pages
pub mod Reading
pub mod Requests
pub mod Selected
pub mod Turning
pub mod Walk
pub mod Lazy
pub mod Wire
pub mod Examples
pub mod Paginated
pub mod SortParam
pub mod Shapes
