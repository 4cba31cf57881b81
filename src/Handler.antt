-- ===== src/Handler.antt =====
-- internal/handler: the endpoints of the system and CORS.
pub mod Cors
pub mod CorsLaws
pub mod Entry
pub mod EntryLaws
pub mod StoreApi
pub mod StoreApiLaws
mod Tests
