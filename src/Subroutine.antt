-- ===== src/Subroutine.antt =====
-- internal/subroutine
pub mod Tuples
pub mod Store
pub mod AuthorizationModel
pub mod AccountInfoFinalizer
pub mod AccountTuples
pub mod ApiExportPolicy
