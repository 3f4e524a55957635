-- ===== src/Command.antt =====
-- cmd: the command that runs before the operator.
pub mod InitContainer
