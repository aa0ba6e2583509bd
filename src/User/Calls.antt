-- ===== src/User/Calls.antt =====
-- What the calls of the manager device have in common, and the structures that they fill in.
use cuddl.Base.{
  ℕ, zero, suc, ◌-◌, Option, none, some, [], ◌∷◌, ◌++◌, Result, ok, err, fault, ℤ, take, drop, ltb,
  if◌then◌else◌,
}
use cuddl.Act.{◌>>=◌, ◌>>◌, pure, raise, hang, gets, ignore}
use cuddl.CStr.{Str, max_str_len, strncpy}
use cuddl.Kernel.{Reply, ResourceId}
use cuddl.Ioctl.Commands.{Request}
use cuddl.User.{Env, U, adjust, sys_open, sys_close, sys_ioctl}

-- After the ioctl of a function that returns a structure: a result other than 0 closes the device and
-- comes back; else the structure is copied by `out`, and only the result of `close` counts.
unfoldable pub after_data : Env → U (Unit {0}) → ℕ → Result ℕ → U ℕ
unfolding ◌>>=◌ ignore sys_close
after_data env out fd (ok zero) = do out; sys_close env fd; pure 0
after_data env out fd (ok (suc n)) = do ignore (sys_close env fd); pure (suc n)
after_data env out fd (err e) = do ignore (sys_close env fd); raise e
after_data env out fd fault = hang

unfoldable pub data_call : Env → (ℕ → Request) → U (Unit {0}) → U ℕ
unfolding ◌>>=◌ sys_open sys_ioctl after_data
data_call env request out = do
  fd ← sys_open env
  pid ← gets (λ p. p.pid)
  r ← sys_ioctl env (request pid)
  after_data env out fd r

-- After the ioctl of a function that returns an `int`.
unfoldable pub after_int : Env → ℕ → Result ℕ → U ℕ
unfolding ◌>>=◌ ignore sys_close
after_int env fd (ok n) = do sys_close env fd; pure n
after_int env fd (err e) = do ignore (sys_close env fd); raise e
after_int env fd fault = hang

unfoldable pub int_call : Env → Request → U ℕ
unfolding ◌>>=◌ sys_open sys_ioctl after_int
int_call env request = do fd ← sys_open env; r ← sys_ioctl env request; after_int env fd r

-- `memcpy(info, &s.info, sizeof(*info))`
unfoldable pub deliver : U (Unit {0})
unfolding adjust
deliver = adjust (λ p. record p { out = p.kernel.user })

-- `str[n] = c`
abbrev pub set_byte : ℕ → ℕ → Str → Str
set_byte n c s = take n s ++ (c ∷ drop (suc n) s)

-- The caller's buffer of `len` bytes after an answer has been copied to it.
unfoldable pub copied_text : Str → ℕ → Str → Str
unfolding strncpy
copied_text dest len src =
    if ltb max_str_len len
    then strncpy (set_byte max_str_len 0 dest) src max_str_len
    else strncpy dest src len

abbrev text_of : Option Reply → Str
text_of (some (Reply.text_info t)) = t
text_of _ = []

unfoldable pub deliver_text : Str → ℕ → U (Unit {0})
unfolding adjust copied_text
deliver_text dest len =
    adjust (λ p. record p { text = copied_text dest len (text_of p.kernel.user) })

abbrev pub copied_name : Str → Option Str → Str
copied_name before none = set_byte 0 0 before
copied_name before (some s) = strncpy before s (max_str_len - 1)

-- populate_id_from_args, into arrays that hold what was on the stack.
unfoldable pub populate_id_from_args : Str → Option Str → Option Str → Option Str → ℤ → ResourceId
unfolding strncpy
populate_id_from_args stack group device resource instance_id = record {
  group = copied_name stack group;
  device = copied_name stack device;
  resource = copied_name stack resource;
  instance_id = instance_id;
}
