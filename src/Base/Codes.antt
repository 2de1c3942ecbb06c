-- ===== src/Base/Codes.antt =====
-- The `int` that functions of the program return: 0, or -1 for an error.
pub data Status : Type 0 where
  success failure : Status
