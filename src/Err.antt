-- ===== src/Err.antt =====
-- The return codes, `knd_err_codes` of include/knd_err.h.
pub data Err : Type 0 where
  ok fail nomem conflict limit range auth : Err
  invalid_data access no_match format io_fail exists : Err
