-- ===== src/Api.antt =====
-- maubot/management/api: the handlers of the management API.
pub mod Responses
pub mod Clients
pub mod Instances
pub mod Plugins
pub mod Uploads
pub mod Databases
pub mod Tables
pub mod Refusals
pub mod Deletion
pub mod Halting
pub mod Replacing
pub mod Codes
pub mod Proxy
pub mod Forwarding
