-- ===== src/Kernel/Error.antt =====
-- include/kernel/error.h: the error codes of the kernel's interfaces. KERR_NONE and KERR_SUCCESS
-- are the same code.
pub data KError : Type 0 where
  success exist no_exist full empty invalid busy unimpl unknown : KError
