-- ===== src/Matrix.antt =====
-- The status matrix (src/capabilities/status_matrix/status_matrix.cpp): the looks that a command may
-- ask for, and the command that asks (src/main.cpp).
pub mod Spec
pub mod Words
