-- ===== src/Orders.antt =====
-- Orders of licenses: internal/store/orders.go and internal/apihttp/orders.go.
pub mod Table
pub mod Handlers
pub mod Plans
pub mod Exposure
pub mod Soundness
pub mod Consistency
mod Tests
