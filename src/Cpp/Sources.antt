-- ===== src/Cpp/Sources.antt =====
-- The classes EventSrc and EventSrcSet (user/include/cuddl/eventsrc.hpp).
pub mod Scope
pub mod Times
use cuddl.Base.{
  ℕ, ◌/◌, ◌%◌, ◌^◌, Bool, true, false, none, some, Result, ok, err, fault, ℤ, pos, if◌then◌else◌,
}
use cuddl.Act.{◌>>=◌, ◌>>◌, pure, hang, gets, ignore, attempt}
use cuddl.CStr.{Str, codes}
use cuddl.Kernel.{ResourceId}
use cuddl.User.{Env, U, EventHandle, EventSet, adjust}
use cuddl.User.Eventsrc.{
  Timespec, eventsrc_claim_and_open, eventsrc_close_and_release, eventsrc_wait, eventsrc_try_wait,
  eventsrc_timed_wait, eventsrc_enable, eventsrc_disable, eventsrc_enabled,
}
use cuddl.User.EventSets.{
  eventsrcset_zero, eventsrcset_add, eventsrcset_remove, eventsrcset_contains,
  eventsrcset_timed_wait,
}
use cuddl.User.Queries.{eventsrc_get_resource_id}
use cuddl.Cpp.Flags.{Flags}
use cuddl.Cpp.Names.{resource_id, of_full_name}
use cuddl.Cpp.Errors.{Ended, returned, threw, throw_err, throw_resource_id_err, checked}
use cuddl.Cpp.Objects.{filled, constructed, filling, filled_id}

pub record EventSrc : Type 0 where
  pub eventsrc : EventHandle
  pub opened : Bool

-- memset(&eventsrc, 0, sizeof(eventsrc)), in the default constructor
abbrev pub closed_source : EventSrc
closed_source = record {
  eventsrc = record {
    flags = 0;
    fd = 0;
    token = record { device_index = pos 0; resource_index = pos 0 };
  };
  opened = false;
}

-- The rest of claim_and_open, on the result of cuddl_eventsrc_claim_and_open.
unfoldable pub source_claimed : ResourceId → Result ℕ → EventSrc → U (Ended (Unit {0}) × EventSrc)
unfolding pure hang throw_resource_id_err
source_claimed id (ok n) s = pure (returned tt, record s { opened = true })
source_claimed id (err e) s = pure (threw (throw_resource_id_err (codes "claim_and_open") id e), s)
source_claimed id fault s = hang

unfoldable pub claim_and_open :
    Env → ResourceId → Flags → EventSrc → U (Ended (Unit {0}) × EventSrc)
unfolding ◌>>=◌ adjust attempt eventsrc_claim_and_open source_claimed
claim_and_open env id claim_flags s = do
  adjust (λ p. record p { source = none })
  ret ← attempt (
      eventsrc_claim_and_open env (some id.group) (some id.device) (some id.resource) id.instance_id
        claim_flags)
  source ← gets (λ p. p.source)
  source_claimed id ret (record s { eventsrc = filled s.eventsrc source })

unfoldable pub close_and_release : Env → EventSrc → U EventSrc
unfolding ◌>>=◌ ignore eventsrc_close_and_release
close_and_release env s =
    if s.opened
    then (ignore (eventsrc_close_and_release env s.eventsrc) >> pure (record s { opened = false }))
    else pure s

-- The constructors that claim, from an identifier, from names, and from a full name.
unfoldable pub new_source : Env → ResourceId → Flags → U (Ended EventSrc)
unfolding ◌>>=◌ claim_and_open
new_source env id claim_flags = do
  r ← claim_and_open env id claim_flags closed_source
  pure (constructed r)

unfoldable pub new_source_from_names : Env → Str → Str → Str → ℤ → Flags → U (Ended EventSrc)
unfolding new_source resource_id
new_source_from_names env group device resource instance claim_flags =
    new_source env (resource_id group device resource instance) claim_flags

unfoldable pub new_source_from_full_name : Env → Str → Flags → U (Ended EventSrc)
unfolding new_source of_full_name
new_source_from_full_name env full_name claim_flags =
    new_source env (of_full_name full_name) claim_flags

-- The destructor.
unfoldable pub delete_source : Env → EventSrc → U (Unit {0})
unfolding ◌>>=◌ close_and_release
delete_source env s = do close_and_release env s; pure tt

-- The waits and the controls return the codes of the C functions.
unfoldable pub wait : Env → EventSrc → U ℕ
unfolding eventsrc_wait
wait env s = eventsrc_wait env s.eventsrc

unfoldable pub try_wait : Env → EventSrc → U ℕ
unfolding eventsrc_try_wait
try_wait env s = eventsrc_try_wait env s.eventsrc

unfoldable pub timed_wait : Env → EventSrc → Timespec → U ℕ
unfolding eventsrc_timed_wait
timed_wait env s timeout = eventsrc_timed_wait env s.eventsrc timeout

-- duration_cast to seconds, and the rest, of a duration in nanoseconds that is not negative
unfoldable pub timespec_of_nanoseconds : ℕ → Timespec
timespec_of_nanoseconds n = record { tv_sec = n / 10 ^ 9; tv_nsec = n % 10 ^ 9 }

unfoldable pub timed_wait_nanoseconds : Env → EventSrc → ℕ → U ℕ
unfolding eventsrc_timed_wait timespec_of_nanoseconds
timed_wait_nanoseconds env s timeout =
    eventsrc_timed_wait env s.eventsrc (timespec_of_nanoseconds timeout)

unfoldable pub enable : Env → EventSrc → U ℕ
unfolding eventsrc_enable
enable env s = eventsrc_enable env s.eventsrc

unfoldable pub disable : Env → EventSrc → U ℕ
unfolding eventsrc_disable
disable env s = eventsrc_disable env s.eventsrc

unfoldable pub is_enabled : Env → EventSrc → U (Ended ℕ)
unfolding checked eventsrc_enabled
is_enabled env s = checked (throw_err (codes "is_enabled")) (eventsrc_enabled env s.eventsrc)

unfoldable pub source_get_resource_id : Env → EventSrc → U (Ended ResourceId)
unfolding filling checked eventsrc_get_resource_id filled_id
source_get_resource_id env s =
    filling
      (checked (throw_err (codes "get_resource_id")) (eventsrc_get_resource_id env s.eventsrc))
      filled_id

-- EventSrcSet, whose member is the C structure. The result of `timed_wait` is in the process.
abbrev pub new_set : EventSet
new_set = eventsrcset_zero

unfoldable pub set_add : EventSet → EventSrc → U EventSet
unfolding eventsrcset_add
set_add set s = eventsrcset_add set s.eventsrc

unfoldable pub set_remove : EventSet → EventSrc → U EventSet
unfolding eventsrcset_remove
set_remove set s = eventsrcset_remove set s.eventsrc

unfoldable pub set_contains : EventSet → EventSrc → U Bool
unfolding eventsrcset_contains
set_contains set s = eventsrcset_contains set s.eventsrc

unfoldable pub set_timed_wait : Env → EventSet → Timespec → U ℕ
unfolding eventsrcset_timed_wait
set_timed_wait env set timeout = eventsrcset_timed_wait env set timeout

unfoldable pub set_timed_wait_nanoseconds : Env → EventSet → ℕ → U ℕ
unfolding eventsrcset_timed_wait timespec_of_nanoseconds
set_timed_wait_nanoseconds env set timeout =
    eventsrcset_timed_wait env set (timespec_of_nanoseconds timeout)
