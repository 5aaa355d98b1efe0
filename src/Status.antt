-- ===== src/Status.antt =====
-- mvgal_error_t of include/mvgal/mvgal_types.h.
use mvgal.Base.{Bool, true, false}

pub data Status : Type 0 where
  success invalid_argument out_of_memory not_found timed_out unsupported busy device_lost : Status
  context_lost not_initialized already_initialized incompatible gpu_not_found : Status
  not_supported driver memory_error initialization ipc no_gpus unknown interrupted : Status
  scheduler_error : Status

-- `status == MVGAL_SUCCESS`
abbrev pub is_success : Status → Bool
is_success success = true
is_success _ = false
