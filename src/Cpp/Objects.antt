-- ===== src/Cpp/Objects.antt =====
-- The class MemRegion (user/include/cuddl/memregion.hpp). A member function takes the object and gives
-- it back as it has left it.
pub mod Scope
use cuddl.Base.{
  ℕ, Bool, true, false, Option, none, some, Result, ok, err, fault, ℤ, pos, if◌then◌else◌,
}
use cuddl.Act.{◌>>=◌, ◌>>◌, pure, hang, gets, ignore, attempt}
use cuddl.CStr.{Str, codes}
use cuddl.Kernel.{Reply, ResourceId}
use cuddl.User.{Env, U, MappedRegion, adjust}
use cuddl.User.Memregion.{memregion_claim_and_map, memregion_unmap_and_release}
use cuddl.User.Queries.{memregion_get_resource_id}
use cuddl.Cpp.Flags.{Flags}
use cuddl.Cpp.Names.{resource_id, of_full_name}
use cuddl.Cpp.Errors.{Ended, returned, threw, throw_err, throw_resource_id_err, checked, or_throw}

pub record MemRegion : Type 0 where
  pub mem : MappedRegion
  pub mapped : Bool

-- memset(&mem, 0, sizeof(mem))
abbrev pub zero_region : MappedRegion
zero_region = record {
  addr = 0;
  len = 0;
  flags = 0;
  pa_addr = 0;
  pa_len = 0;
  fd = 0;
  token = record { device_index = pos 0; resource_index = pos 0 };
}

-- The default constructor.
abbrev pub unmapped_region : MemRegion
unmapped_region = record { mem = zero_region; mapped = false }

abbrev pub filled : {A : Type 0} → A → Option A → A
filled old none = old
filled old (some new) = new

-- The rest of claim_and_map, on the result of cuddl_memregion_claim_and_map.
unfoldable pub region_claimed : ResourceId → Result ℕ → MemRegion → U (Ended (Unit {0}) × MemRegion)
unfolding pure hang throw_resource_id_err
region_claimed id (ok n) m = pure (returned tt, record m { mapped = true })
region_claimed id (err e) m = pure (threw (throw_resource_id_err (codes "claim_and_map") id e), m)
region_claimed id fault m = hang

unfoldable pub claim_and_map :
    Env → ResourceId → Flags → MemRegion → U (Ended (Unit {0}) × MemRegion)
unfolding ◌>>=◌ adjust attempt memregion_claim_and_map region_claimed
claim_and_map env id claim_flags m = do
  adjust (λ p. record p { region = none })
  ret ← attempt (
      memregion_claim_and_map env (some id.group) (some id.device) (some id.resource) id.instance_id
        claim_flags)
  region ← gets (λ p. p.region)
  region_claimed id ret (record m { mem = filled m.mem region })

unfoldable pub unmap_and_release : Env → MemRegion → U MemRegion
unfolding ◌>>=◌ ignore memregion_unmap_and_release
unmap_and_release env m =
    if m.mapped
    then (ignore (memregion_unmap_and_release env m.mem) >> pure (record m { mapped = false }))
    else pure m

-- The object, if its constructor has not thrown.
abbrev pub constructed : {A B : Type 0} → Ended A × B → Ended B
constructed (returned a, m) = returned m
constructed (threw e, m) = threw e

-- The constructors that claim, from an identifier, from names, and from a full name.
unfoldable pub new_region : Env → ResourceId → Flags → U (Ended MemRegion)
unfolding ◌>>=◌ claim_and_map
new_region env id claim_flags = do
  r ← claim_and_map env id claim_flags unmapped_region
  pure (constructed r)

unfoldable pub new_region_from_names : Env → Str → Str → Str → ℤ → Flags → U (Ended MemRegion)
unfolding new_region resource_id
new_region_from_names env group device resource instance claim_flags =
    new_region env (resource_id group device resource instance) claim_flags

unfoldable pub new_region_from_full_name : Env → Str → Flags → U (Ended MemRegion)
unfolding new_region of_full_name
new_region_from_full_name env full_name claim_flags =
    new_region env (of_full_name full_name) claim_flags

-- The destructor.
unfoldable pub delete_region : Env → MemRegion → U (Unit {0})
unfolding ◌>>=◌ unmap_and_release
delete_region env m = do unmap_and_release env m; pure tt

-- The identifier that a call has filled in.
unfoldable pub id_in : Option Reply → U ResourceId
unfolding pure hang
id_in (some (Reply.resource_id id)) = pure id
id_in _ = hang

unfoldable pub filled_id : ℕ → U ResourceId
unfolding ◌>>=◌ id_in
filled_id ret = do out ← gets (λ p. p.out); id_in out

-- A function that has a structure filled in, which holds nothing before.
unfoldable pub filling : {A : Type 0} → U (Ended ℕ) → (ℕ → U A) → U (Ended A)
unfolding ◌>>=◌ adjust or_throw
filling m f = do adjust (λ p. record p { out = none }); ret ← m; or_throw ret f

unfoldable pub region_get_resource_id : Env → MemRegion → U (Ended ResourceId)
unfolding filling checked memregion_get_resource_id filled_id
region_get_resource_id env m =
    filling (checked (throw_err (codes "get_resource_id")) (memregion_get_resource_id env m.mem))
      filled_id
