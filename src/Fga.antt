-- ===== src/Fga.antt =====
-- internal/fga
pub mod Service
pub mod Tuples
pub mod Manager
pub mod StoreId
