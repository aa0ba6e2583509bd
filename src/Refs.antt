-- ===== src/Refs.antt =====
-- The reference counts of resources and the list of who holds them
-- (kernel/linux/src/cuddlk_manager_linux.c, down to cuddlk_manager_free_refs_for_pid). The mutexes
-- of the resources are left out: each function here takes one, and the manager's is held already.
pub mod Counted
pub mod Cleanup
pub mod Exit
use cuddl.Base.{
  ℕ, ◌+◌, ◌-◌, ◌%◌, Bool, ◌&&◌, not, List, [], ◌∷◌, ok, ebusy, enospc, update, int_mod, int_max_suc,
  ltb, ◌==◌, if◌then◌else◌,
}
use cuddl.Device.{Device, Memregion, Eventsrc, has_bit_0}
use cuddl.Kernel.{
  M, OsCall, ResourceRef, ◌>>=◌, ◌>>◌, pure, raise, gets, when, ignore, load, store, call,
  with_lock,
}

-- `count > 0` for an `int`.
abbrev pub is_positive_int : ℕ → Bool
is_positive_int n = ltb 0 n && ltb n int_max_suc

abbrev with_memregion : Device → ℕ → Memregion → Device
with_memregion dev i mem = record dev { mem = update dev.mem i mem }

abbrev with_eventsrc : Device → ℕ → Eventsrc → Device
with_eventsrc dev i eventsrc = record dev { events = update dev.events i eventsrc }

abbrev counted_memregion : Memregion → ℕ → Memregion
counted_memregion mem n = record mem { ref_count = n }

abbrev counted_eventsrc : Eventsrc → ℕ → Eventsrc
counted_eventsrc eventsrc n = record eventsrc { ref_count = n }

-- `if (uio_dev->owner) try_module_get(uio_dev->owner)`, and likewise with module_put
abbrev owner_call : (ℕ → OsCall) → ℕ → M (Unit {0})
owner_call c owner = when (not (owner == 0)) (call (c owner))

abbrev pub is_busy : ℕ → ℕ → Bool → Bool
is_busy ref_count flags hostile =
    is_positive_int ref_count && (not (has_bit_0 flags) && not hostile)

unfoldable pub memregion_claim : ℕ → ℕ → Bool → M (Unit {0})
unfolding ◌>>=◌ load store call when
memregion_claim p i hostile = do
  dev ← load p
  if is_busy (dev.mem i).ref_count (dev.mem i).flags hostile then raise ebusy else do
    store p (
        with_memregion dev i
          (counted_memregion (dev.mem i) (((dev.mem i).ref_count + 1) % int_mod)))
    owner_call OsCall.module_get dev.uio_owner

unfoldable pub memregion_decr_ref_count : ℕ → ℕ → M (Unit {0})
unfolding ◌>>=◌ load store call when
memregion_decr_ref_count p i = do
  dev ← load p
  if (dev.mem i).ref_count == 0 then raise enospc else do
    store p (with_memregion dev i (counted_memregion (dev.mem i) ((dev.mem i).ref_count - 1)))
    owner_call OsCall.module_put dev.uio_owner

unfoldable pub eventsrc_claim : ℕ → ℕ → Bool → M (Unit {0})
unfolding ◌>>=◌ load store call when
eventsrc_claim p i hostile = do
  dev ← load p
  if is_busy (dev.events i).ref_count (dev.events i).flags hostile then raise ebusy else do
    store p (
        with_eventsrc dev i
          (counted_eventsrc (dev.events i) (((dev.events i).ref_count + 1) % int_mod)))
    owner_call OsCall.module_get dev.uio_owner

unfoldable pub eventsrc_decr_ref_count : ℕ → ℕ → M (Unit {0})
unfolding ◌>>=◌ load store call when
eventsrc_decr_ref_count p i = do
  dev ← load p
  if (dev.events i).ref_count == 0 then raise enospc else do
    store p (with_eventsrc dev i (counted_eventsrc (dev.events i) ((dev.events i).ref_count - 1)))
    owner_call OsCall.module_put dev.uio_owner

-- `list_add` puts the new reference at the head.
unfoldable pub add_mem_ref : ResourceRef → M (Unit {0})
add_mem_ref r k = (ok tt, record k { mem_refs = r ∷ k.mem_refs })

unfoldable pub add_event_ref : ResourceRef → M (Unit {0})
add_event_ref r k = (ok tt, record k { event_refs = r ∷ k.event_refs })

abbrev pub is_ref : ℕ → ℕ → ℕ → ResourceRef → Bool
is_ref slot i pid r = slot == r.device_index && (i == r.resource_index && pid == r.pid)

-- The loop of a release: it drops the first reference of that token and process, and stops.
unfoldable pub remove_ref : ℕ → ℕ → ℕ → List ResourceRef → List ResourceRef
remove_ref slot i pid [] = []
remove_ref slot i pid (r ∷ rs) =
    let rest = remove_ref slot i pid rs in if is_ref slot i pid r then rs else r ∷ rest

-- One loop of cuddlk_manager_free_refs_for_pid: `decr` is the count-down of one resource. The list
-- that is left comes back.
unfoldable pub free_refs : (ℕ → ℕ → M (Unit {0})) → ℕ → List ResourceRef → M (List ResourceRef)
unfolding ◌>>=◌ ignore
free_refs decr pid [] = pure []
free_refs decr pid (r ∷ rs) =
    let rest = free_refs decr pid rs in
    if r.pid == pid
    then ((λ k. ignore (decr (k.devices r.device_index) r.resource_index) k) >>= (λ _. rest))
    else (rest >>= λ left. pure (r ∷ left))

unfoldable pub set_mem_refs : List ResourceRef → M (Unit {0})
set_mem_refs rs k = (ok tt, record k { mem_refs = rs })

unfoldable pub set_event_refs : List ResourceRef → M (Unit {0})
set_event_refs rs k = (ok tt, record k { event_refs = rs })

-- Each loop reads its list once and leaves what is left of it; a fault in the middle leaves the list
-- as it was.
unfoldable pub free_mem_refs : ℕ → M (Unit {0})
unfolding ◌>>=◌ free_refs memregion_decr_ref_count set_mem_refs
free_mem_refs pid = do
  refs ← gets (λ k. k.mem_refs)
  left ← free_refs memregion_decr_ref_count pid refs
  set_mem_refs left

unfoldable pub free_event_refs : ℕ → M (Unit {0})
unfolding ◌>>=◌ free_refs eventsrc_decr_ref_count set_event_refs
free_event_refs pid = do
  refs ← gets (λ k. k.event_refs)
  left ← free_refs eventsrc_decr_ref_count pid refs
  set_event_refs left

unfoldable pub free_refs_body : ℕ → M (Unit {0})
unfolding ◌>>=◌ free_mem_refs free_event_refs
free_refs_body pid = do free_mem_refs pid; free_event_refs pid

unfoldable pub free_refs_for_pid : ℕ → M (Unit {0})
unfolding with_lock free_refs_body
free_refs_for_pid pid = with_lock (free_refs_body pid)
