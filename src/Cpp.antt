-- ===== src/Cpp.antt =====
-- The C++ interface (user/include/cuddl/*.hpp): classes whose objects own what the C library hands
-- out, and functions that turn error codes into exceptions.
pub mod Strings
pub mod Names
pub mod Flags
pub mod Versions
pub mod Errors
pub mod Scope
pub mod Objects
pub mod Sources
pub mod Manager
