-- ===== src/Events.antt =====
-- fastapi_viewsets/events: the parts of the event machinery.
pub mod Store
pub mod Topics
pub mod Delivery
pub mod Sources
pub mod Authorizers
pub mod Polling
pub mod Subscribing
pub mod Publishing
pub mod Scopes
pub mod Changes
