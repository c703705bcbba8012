-- ===== src/Core/Errors.antt =====
-- src/core/errors.c: the error constants.

-- The twelve predefined errors.
pub data Error : Type 0 where
  null_pointer arithmetic number_format index_out_of_bounds no_such_element : Error
  illegal_argument illegal_state type_mismatch unsupported_operation : Error
  concurrent_modification memory_allocation input_output : Error
