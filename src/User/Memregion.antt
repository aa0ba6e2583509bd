-- ===== src/User/Memregion.antt =====
-- cuddl_memregion_*: claiming, mapping and releasing memory regions.
use cuddl.Base.{ℕ, zero, suc, ◌+◌, Option, some, Result, ok, err, fault, ℤ, pos, if◌then◌else◌}
use cuddl.Act.{◌>>=◌, ◌>>◌, pure, hang, lift, gets, ignore, attempt, on_error}
use cuddl.CStr.{Str}
use cuddl.Kernel.{Reply, MemregionInfo, Token}
use cuddl.Ioctl.Commands.{
  Request, ClaimData, ReleaseData, version_code, memregion_claim_udd, memregion_claim_uio,
  memregion_release_udd, memregion_release_uio,
}
use cuddl.User.{Env, U, MappedRegion, adjust, sys_open, sys_close, sys_mmap, sys_munmap}
use cuddl.User.Calls.{data_call, deliver, populate_id_from_args}

abbrev pub claim_data : Env → Option Str → Option Str → Option Str → ℤ → ℕ → ℕ → ClaimData
claim_data env group device resource instance_id options pid = record {
  version_code = pos version_code;
  id = populate_id_from_args env.stack group device resource instance_id;
  pid = pid;
  options = options;
}

abbrev pub release_data : Token → ℕ → ReleaseData
release_data token pid = record { version_code = pos version_code; token = token; pid = pid }

-- CUDDLCI_MEMREGION_CLAIM_IOCTL
abbrev pub memregion_claim_request : Env → ClaimData → Request
memregion_claim_request env s = if env.xeno then memregion_claim_udd s else memregion_claim_uio s

-- CUDDLCI_MEMREGION_RELEASE_IOCTL
abbrev pub memregion_release_request : Env → ReleaseData → Request
memregion_release_request env s =
    if env.xeno then memregion_release_udd s else memregion_release_uio s

unfoldable pub memregion_claim : Env → Option Str → Option Str → Option Str → ℤ → ℕ → U ℕ
unfolding data_call deliver populate_id_from_args
memregion_claim env group device memregion instance_id options =
    data_call env
      (λ pid.
        memregion_claim_request env (claim_data env group device memregion instance_id options pid))
      deliver

unfoldable pub memregion_release_by_token : Env → Token → U ℕ
unfolding data_call
memregion_release_by_token env token =
    data_call env (λ pid. memregion_release_request env (release_data token pid)) (pure tt)

unfoldable pub memregion_release : Env → MemregionInfo → U ℕ
unfolding memregion_release_by_token
memregion_release env meminfo = memregion_release_by_token env meminfo.token

abbrev pub mapped_region : MemregionInfo → ℕ → ℕ → MappedRegion
mapped_region meminfo fd addr = record {
  addr = addr + meminfo.start_offset;
  len = meminfo.len;
  flags = meminfo.flags;
  pa_addr = addr;
  pa_len = meminfo.pa_len;
  fd = fd;
  token = meminfo.token;
}

unfoldable pub memregion_map : Env → MemregionInfo → U ℕ
unfolding ◌>>=◌ on_error ignore sys_open sys_mmap sys_close adjust
memregion_map env meminfo = do
  fd ← sys_open env
  addr ← on_error (sys_mmap env) (ignore (sys_close env fd))
  adjust (λ p. record p { region = some (mapped_region meminfo fd addr) })
  pure 0

-- The first error comes back.
abbrev pub first_code : Result (Unit {0}) → Result (Unit {0}) → Result ℕ
first_code (ok _) (ok _) = ok 0
first_code (ok _) (err e) = err e
first_code (ok _) fault = fault
first_code (err e) _ = err e
first_code fault _ = fault

unfoldable pub memregion_unmap : Env → MappedRegion → U ℕ
unfolding ◌>>=◌ attempt sys_munmap sys_close
memregion_unmap env memregion = do
  unmapped ← attempt (sys_munmap env memregion.pa_addr)
  closed ← attempt (sys_close env memregion.fd)
  lift (first_code unmapped closed)

-- The structure that a claim has filled in.
unfoldable pub memregion_in : Option Reply → U MemregionInfo
unfolding pure hang
memregion_in (some (Reply.memregion_info info)) = pure info
memregion_in _ = hang

unfoldable pub claimed_memregion : U MemregionInfo
unfolding ◌>>=◌ memregion_in
claimed_memregion = do out ← gets (λ p. p.out); memregion_in out

abbrev pub or_return : ℕ → U ℕ → U ℕ
or_return zero m = m
or_return (suc n) m = pure (suc n)

-- `if (ret) cuddl_memregion_release(&meminfo); return ret;`
unfoldable pub memregion_map_or_release : Env → MemregionInfo → U ℕ
unfolding on_error ignore memregion_map memregion_release
memregion_map_or_release env meminfo =
    on_error (memregion_map env meminfo) (ignore (memregion_release env meminfo))

unfoldable pub memregion_claim_and_map : Env → Option Str → Option Str → Option Str → ℤ → ℕ → U ℕ
unfolding ◌>>=◌ memregion_claim claimed_memregion memregion_map_or_release
memregion_claim_and_map env group device resource instance_id claim_options = do
  ret ← memregion_claim env group device resource instance_id claim_options
  or_return ret (do meminfo ← claimed_memregion; memregion_map_or_release env meminfo)

abbrev pub first_int : Result ℕ → Result ℕ → Result ℕ
first_int (ok zero) r = r
first_int r _ = r

unfoldable pub memregion_unmap_and_release : Env → MappedRegion → U ℕ
unfolding ◌>>=◌ attempt memregion_unmap memregion_release_by_token
memregion_unmap_and_release env memregion = do
  ret1 ← attempt (memregion_unmap env memregion)
  ret2 ← attempt (memregion_release_by_token env memregion.token)
  lift (first_int ret1 ret2)
