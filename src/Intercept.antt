-- ===== src/Intercept.antt =====
-- library/internal_model.c: which intercept configuration fits an address and a port.
pub mod Address
pub mod Parse
pub mod Score
