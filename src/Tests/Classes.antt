-- ===== src/Tests/Classes.antt =====
-- Runs of the C++ interface.
use cuddl.Base.{ℕ, scan, [], ◌∷◌, ◌≡◌, refl, List, arith, pos, negsuc, enxio}
use cuddl.Act.{◌>>=◌, pure}
use cuddl.Act.Triples.{Triple, Triple-bind}
use cuddl.CStr.{codes, strnlen, strncmp}
use cuddl.Device.{device_find_memregion_slot}
use cuddl.Manager.{find_device_slot_matching}
use cuddl.Ioctl.Commands.{version_code_is_compat}
use cuddl.Ioctl.Claim.{memregion_claim_ioctl}
use cuddl.User.{U}
use cuddl.User.Descriptors.{Open}
use cuddl.Cpp.Errors.{Ended, returned, threw, throw_err}
use cuddl.Cpp.Names.{resource_id, full_name, of_full_name}
use cuddl.Cpp.Names.RoundTrip.{of_full_name-full_name}
use cuddl.Cpp.Flags.{
  EventSrcFlag, eventsrc_flag_as_int, is_set, FlagsOp, set_flag, clear_flag, set_flags, apply_all,
  put_eventsrc_flags,
}
use cuddl.Cpp.Flags.Laws.{eventsrc_bits, member_after, apply_all-member}
use cuddl.Cpp.Versions.Order.{Numbers, Faithful, version-Faithful}
use cuddl.Cpp.Scope.{scope, Closes, StillOwned}
use cuddl.Cpp.Objects.{MemRegion, new_region, delete_region, unmap_and_release}
use cuddl.Cpp.Objects.Scope.{Gone, Owned, region_scope-Closes, unmap_and_release-Freed}
use cuddl.Cpp.Sources.{EventSrc, new_source, delete_source}
use cuddl.Cpp.Sources.Scope.{source_scope-Closes}
use cuddl.Cpp.Sources.Scope as Source
use cuddl.Tests.Users.{env, process}

of_full_name-full_name_example :
    of_full_name (full_name (resource_id (codes "g") (codes "d") [] (pos 0)))
    ≡ resource_id (codes "g") (codes "d") (codes "*") (negsuc 0)
of_full_name-full_name_example =
    of_full_name-full_name (codes "g") (codes "d") [] (pos 0) (omega arith) (omega arith)
      (omega arith) (omega arith)

abbrev some_changes : List (FlagsOp EventSrcFlag)
some_changes =
    set_flag EventSrcFlag.waitable ∷ set_flags 12 ∷ clear_flag EventSrcFlag.has_disable ∷ []

apply_all-member_example :
    is_set (apply_all eventsrc_flag_as_int some_changes 0) 8
    ≡ member_after eventsrc_bits some_changes EventSrcFlag.has_enable (is_set 0 8)
apply_all-member_example =
    apply_all-member eventsrc_bits some_changes 0 EventSrcFlag.has_enable
      (tt, (omega arith, (tt, tt)))

flags_printed : put_eventsrc_flags 10 ≡ codes "WAITABLE | HAS_ENABLE"
unfolding put_eventsrc_flags is_set
flags_printed = refl

abbrev released : Numbers
released = record {
  maj = 1;
  min = 0;
  rev = 0;
  maj_fits = omega arith;
  min_fits = omega arith;
  rev_fits = omega arith;
}

abbrev patched : Numbers
patched = record {
  maj = 1;
  min = 0;
  rev = 200;
  maj_fits = omega arith;
  min_fits = omega arith;
  rev_fits = omega arith;
}

version-Faithful_example : Faithful released patched
version-Faithful_example = version-Faithful released patched

-- A body that gives its region back and then throws.
abbrev give_up : MemRegion → U (Ended ℕ × MemRegion)
give_up m = unmap_and_release env m >>= λ n. pure (threw (throw_err (codes "give_up") enxio), n)

give_up-StillOwned : (m : MemRegion) → Triple (Owned [] [] m) (give_up m) (StillOwned (Owned [] []))
unfolding pure
give_up-StillOwned m =
    Triple-bind (unmap_and_release env m) _ (unmap_and_release-Freed [] [] env m)
      (record { failed = λ e k h. h; stopped = λ k h. h }) λ n. record { at = λ p (e, h). rw e h }

region_scope-Closes_example :
    Triple
      (Open [] [])
      (scope
        (delete_region env)
        (new_region env (resource_id (codes "g") (codes "d") (codes "m") (pos 1)) 0)
        give_up)
      (Closes (Gone [] []))
region_scope-Closes_example =
    region_scope-Closes [] [] env (resource_id (codes "g") (codes "d") (codes "m") (pos 1)) 0
      give_up give_up-StillOwned

-- A body that leaves the event source open.
abbrev leave_open : EventSrc → U (Ended ℕ × EventSrc)
leave_open s = pure (returned 7, s)

leave_open-StillOwned :
    (s : EventSrc) → Triple (Source.Owned [] [] s) (leave_open s) (StillOwned (Source.Owned [] []))
unfolding pure
leave_open-StillOwned s = record { at = λ p h. h }

source_scope-Closes_example :
    Triple
      (Open [] [])
      (scope
        (delete_source env)
        (new_source env (resource_id (codes "g") (codes "d") (codes "e") (pos 1)) 0)
        leave_open)
      (Closes (Open [] []))
source_scope-Closes_example =
    source_scope-Closes [] [] env (resource_id (codes "g") (codes "d") (codes "e") (pos 1)) 0
      leave_open leave_open-StillOwned

-- The constructor maps the region, and the scope gives the descriptor and the mapping back.
constructor_maps :
    (new_region env (resource_id (codes "g") (codes "d") (codes "m") (pos 1)) 0 process).1.mappings
    ≡ 8192 ∷ []
unfolding new_region resource_id memregion_claim_ioctl version_code_is_compat
    find_device_slot_matching scan strnlen strncmp device_find_memregion_slot
constructor_maps = refl
