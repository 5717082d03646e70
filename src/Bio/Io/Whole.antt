-- ===== src/Bio/Io/Whole.antt =====
-- A read of a block, from the request over the interrupt to the return of `bread`.
use raynix.Bio.Io.{Io}
