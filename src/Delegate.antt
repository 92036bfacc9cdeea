-- ===== src/Delegate.antt =====
-- include/utils/Delegate.h: `Memory` and `Lists` have the arrays of methods that lists share and the
-- lists themselves; `Calls` the delegates, whose operations replace their list and never change it.
-- `Counts` has the lists of `_Delegate`, with the calls that still read them. `Add`, `Search` and
-- `Remove` are about lists, `Program`, `Order` and `Whole` about delegates, `Nested` about calls that
-- change the list they read. `Callables` has what methods are known by.
pub mod Memory
pub mod Lists
pub mod Counts
pub mod Add
pub mod Search
pub mod Remove
pub mod Each
pub mod Left
pub mod Differ
pub mod Calls
pub mod Copy
pub mod Program
pub mod Join
pub mod Whole
pub mod Reclaim
pub mod Holds
pub mod Nested
pub mod Order
pub mod Callables
mod Examples
