-- ===== src/Mkfs.antt =====
-- mkfs/mkfs.c, the host program that builds a file system image. What fs.h, stat.h and param.h define
-- is a parameter, `Format`, since these headers are not in the repository; so is whether the host's
-- file calls succeed, `Host`. A call that dies or fails an assertion is `panic`, and a loop that has
-- used up its fuel is `forever`.
pub mod Order
pub mod Image
pub mod Append
pub mod Build
