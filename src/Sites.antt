-- ===== src/Sites.antt =====
-- What a user may do with a site: internal/apihttp/filemanager.go, sites.go and ip_restrictions.go with
-- their stores, and the ports of internal/store/sites.go.
pub mod Files
pub mod Climb
pub mod Contained
pub mod Access
pub mod Grants
pub mod Rules
pub mod Reach
pub mod Ports
pub mod FreePort
mod Tests
mod GrantTests
