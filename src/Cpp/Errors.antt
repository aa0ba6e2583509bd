-- ===== src/Cpp/Errors.antt =====
-- Exceptions: throw_err (user/include/cuddl/utility.hpp) and throw_resource_id_err (general.hpp). An
-- error code of a C function becomes the value `threw` of the C++ function that calls it.
use cuddl.Base.{ℕ, ◌++◌, Errno, Result, ok, err, fault}
use cuddl.Act.{◌>>=◌, pure, hang, attempt}
use cuddl.CStr.{Str, codes}
use cuddl.Kernel.{ResourceId}
use cuddl.User.{U}
use cuddl.Cpp.Names.{full_name}

-- std::system_error: its code, and its message up to " returned " and the number of the code.
pub record SystemError : Type 0 where
  pub code : Errno
  pub message : Str

-- How a C++ function ends.
pub data Ended (A : Type 0) : Type 0 where
  returned : A → Ended A
  threw : SystemError → Ended A

abbrev pub throw_err : Str → Errno → SystemError
throw_err msg code = record { code = code; message = msg }

unfoldable pub throw_resource_id_err : Str → ResourceId → Errno → SystemError
unfolding full_name
throw_resource_id_err msg id code =
    throw_err (msg ++ (codes " for cuddl resource '" ++ (full_name id ++ codes "'"))) code

unfoldable pub ended : (Errno → SystemError) → Result ℕ → U (Ended ℕ)
unfolding pure hang
ended throws (ok n) = pure (returned n)
ended throws (err e) = pure (threw (throws e))
ended throws fault = hang

-- `int ret = m; if (ret < 0) { throw ...; } return ret;`
unfoldable pub checked : (Errno → SystemError) → U ℕ → U (Ended ℕ)
unfolding ◌>>=◌ attempt ended
checked throws m = do ret ← attempt m; ended throws ret

-- What follows in the function, unless it has thrown.
unfoldable pub or_throw : {A B : Type 0} → Ended A → (A → U B) → U (Ended B)
unfolding ◌>>=◌
or_throw (returned a) f = do b ← f a; pure (returned b)
or_throw (threw e) f = pure (threw e)
