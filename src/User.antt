-- ===== src/User.antt =====
-- The user library (user/src/cuddl_linux.c): the state of a process that is linked with it, and the
-- system calls that it makes.
pub mod Calls
pub mod Memregion
pub mod FdSet
pub mod Eventsrc
pub mod EventSets
pub mod Queries
pub mod Lifetime
pub mod Descriptors
pub mod Waits
pub mod Tokens
pub mod Handles
pub mod Ready
pub mod SetLaws
pub mod Lives
pub mod Returned
pub mod Sources
pub mod Library
pub mod Claims
pub mod Recorded
pub mod Rounds
use cuddl.Base.{
  ℕ, ◌+◌, Bool, Option, none, some, List, [], ◌∷◌, Errno, Result, ok, err, ◌==◌, if◌then◌else◌,
}
use cuddl.Act.{Act, ◌>>=◌, ◌>>◌, pure, lift, attempt}
use cuddl.CStr.{Str}
use cuddl.Kernel.{Kernel, Reply, Token}
use cuddl.Ioctl.{manager_ioctl}
use cuddl.Ioctl.Commands.{Call, Request}
use cuddl.Janitor.{JanitorCalls, JanitorFile}

-- struct timeval
pub record Timeval : Type 0 where
  pub tv_sec : ℕ
  pub tv_usec : ℕ

-- How a system call turns out, whichever it is: the descriptor or the address that it returns, its
-- error code, and, for `read` and a mutex, that it may not return. `call` is what the kernel module
-- meets in an ioctl. Of `read` and `write` the first argument is the descriptor; of `select` the
-- arguments are the number of descriptors, the set and the time.
pub record Outcome : Type 0 where
  pub opens : Result ℕ
  pub closes : Option Errno
  pub maps : Result ℕ
  pub unmaps : Option Errno
  pub reads : ℕ → Result ℕ
  pub writes : ℕ → ℕ → Option Errno
  pub selects : ℕ → (ℕ → Bool) → Timeval → Result (ℕ → Bool)
  pub call : Call
  pub janitor_calls : JanitorCalls

-- The outcomes of the system calls of a process, in their order. `stack` is what is on the stack
-- where a function has an array that it does not initialize; `xeno` is __XENO__.
pub record Env : Type 0 where
  pub script : ℕ → Outcome
  pub page_size : ℕ
  pub xeno : Bool
  pub stack : Str

-- struct cuddl_memregion with struct cuddli_memregion_priv
pub record MappedRegion : Type 0 where
  pub addr : ℕ
  pub len : ℕ
  pub flags : ℕ
  pub pa_addr : ℕ
  pub pa_len : ℕ
  pub fd : ℕ
  pub token : Token

-- struct cuddl_eventsrc with struct cuddli_eventsrc_priv
pub record EventHandle : Type 0 where
  pub flags : ℕ
  pub fd : ℕ
  pub token : Token

-- struct cuddl_eventsrcset with struct cuddli_eventsrcset_priv
pub record EventSet : Type 0 where
  pub fds : ℕ → Bool
  pub max_fd : ℕ

-- A process and the kernel that it calls: its open descriptors, the latest first, its mappings, and
-- how many system calls it has made. `read_from` is what it has read from, the latest first. `out`, `region`, `source`, `ready` and `text` are the structures
-- that the caller of a library function hands in for its answer. `janitor` is its file at the janitor,
-- and `janitor_fd` is cuddli_janitor_fd.
pub record Process : Type 0 where
  pub kernel : Kernel
  pub pid : ℕ
  pub fds : List ℕ
  pub mappings : List ℕ
  pub clock : ℕ
  pub read_from : List ℕ
  pub out : Option Reply
  pub region : Option MappedRegion
  pub source : Option EventHandle
  pub ready : EventSet
  pub text : Str
  pub janitor : Option JanitorFile
  pub janitor_fd : Result ℕ

abbrev pub U : Type 0 → Type 0
U A = Act Process A

unfoldable pub adjust : (Process → Process) → U (Unit {0})
adjust f p = (ok tt, f p)

-- The outcome of the next system call.
unfoldable pub next : Env → U Outcome
next env p = (ok (env.script p.clock), record p { clock = p.clock + 1 })

pub without_number : ℕ → List ℕ → List ℕ
without_number n [] = []
without_number n (x ∷ xs) = let rest = without_number n xs in if n == x then xs else x ∷ rest

abbrev pub code : Option Errno → Result (Unit {0})
code none = ok tt
code (some e) = err e

abbrev pub with_fd : ℕ → Process → Process
with_fd fd p = record p { fds = fd ∷ p.fds }

abbrev pub without_fd : ℕ → Process → Process
without_fd fd p = record p { fds = without_number fd p.fds }

unfoldable pub sys_open : Env → U ℕ
unfolding ◌>>=◌ adjust next
sys_open env = do o ← next env; fd ← lift o.opens; adjust (with_fd fd); pure fd

-- Linux gives the descriptor back even when it reports an error.
unfoldable pub sys_close : Env → ℕ → U (Unit {0})
unfolding ◌>>=◌ adjust next without_number
sys_close env fd = do o ← next env; adjust (without_fd fd); lift (code o.closes)

-- The answer of the kernel module comes back as the value of `ioctl`, or as -1 with its code in
-- `errno`. What an earlier call has copied to user space is elsewhere.
abbrev pub enter_ioctl : Env → Call → Request → U ℕ
enter_ioctl env c request p =
    let (r, k) = manager_ioctl c env.page_size request (record p.kernel { user = none }) in
    (r, record p { kernel = k })

unfoldable pub sys_ioctl : Env → Request → U (Result ℕ)
unfolding ◌>>=◌ next attempt manager_ioctl
sys_ioctl env request = do o ← next env; attempt (enter_ioctl env o.call request)

abbrev pub with_mapping : ℕ → Process → Process
with_mapping a p = record p { mappings = a ∷ p.mappings }

abbrev pub without_mapping : Option Errno → ℕ → Process → Process
without_mapping none a p = record p { mappings = without_number a p.mappings }
without_mapping (some e) a p = p

unfoldable pub sys_mmap : Env → U ℕ
unfolding ◌>>=◌ adjust next
sys_mmap env = do o ← next env; a ← lift o.maps; adjust (with_mapping a); pure a

unfoldable pub sys_munmap : Env → ℕ → U (Unit {0})
unfolding ◌>>=◌ adjust next without_number
sys_munmap env a = do o ← next env; adjust (without_mapping o.unmaps a); lift (code o.unmaps)

abbrev pub with_read : ℕ → Process → Process
with_read fd p = record p { read_from = fd ∷ p.read_from }

-- The 32-bit count that a read from an event source stores.
unfoldable pub sys_read : Env → ℕ → U ℕ
unfolding ◌>>=◌ adjust next
sys_read env fd = do o ← next env; adjust (with_read fd); lift (o.reads fd)

unfoldable pub sys_write : Env → ℕ → ℕ → U (Unit {0})
unfolding ◌>>=◌ next
sys_write env fd value = do o ← next env; lift (code (o.writes fd value))

unfoldable pub sys_select : Env → ℕ → (ℕ → Bool) → Timeval → U (ℕ → Bool)
unfolding ◌>>=◌ next
sys_select env n fds tv = do o ← next env; lift (o.selects n fds tv)
