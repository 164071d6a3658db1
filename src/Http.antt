-- ===== src/Http.antt =====
-- The HTTP interface (app/httpinterface_v1.go): the handlers that `InitWebserver` registers, as
-- actions on the shared state that return what they write.
pub mod Response
pub mod Handlers
pub mod Delivery
pub mod Patching
pub mod Creating
pub mod Reading
pub mod Removing
pub mod Deleting
pub mod Releasing
pub mod Subscribing
pub mod Server
