-- ===== src/Tests/Users.antt =====
-- Runs of the user library in a process with number 8.
use cuddl.Base.{
  ℕ, true, false, none, some, [], ◌≡◌, refl, Result, ok, pos, arith, ◌==◌, ◌||◌, ◌≤◌, ◌∷◌,
}
use cuddl.Act.Triples.{Triple}
use cuddl.CStr.{codes}
use cuddl.User.{Env, Process, Outcome, MappedRegion, EventHandle, EventSet}
use cuddl.User.Descriptors.{Open, Left}
use cuddl.User.Library.{perform, perform-Left, claim_memregion}
use cuddl.User.Calls.{populate_id_from_args}
use cuddl.User.Memregion.{memregion_claim_and_map, memregion_unmap_and_release}
use cuddl.User.Eventsrc.{Timespec, eventsrc_claim_and_open, eventsrc_close_and_release}
use cuddl.User.EventSets.{eventsrcset_zero, eventsrcset_contains, eventsrcset_timed_wait}
use cuddl.User.Ready.{AllRead, Waited, eventsrcset_timed_wait-Waited}
use cuddl.User.SetLaws.{adds, removes, run, member_after, run-contains}
use cuddl.User.Handles.{Handed, memregion_claim_and_map-Handed}
use cuddl.User.Returned.{GivenBack}
use cuddl.User.Rounds.{
  Released, memregion_claim_and_map-unmap_and_release, eventsrc_claim_and_open-close_and_release,
}
use cuddl.Base.{scan}
use cuddl.CStr.{strnlen, strncmp}
use cuddl.Device.{device_find_memregion_slot, device_find_eventsrc_slot}
use cuddl.Manager.{find_device_slot_matching}
use cuddl.Ioctl.Commands.{version_code_is_compat}
use cuddl.Ioctl.Claim.{
  memregion_claim_ioctl, eventsrc_claim_ioctl, memregion_info_of, eventsrc_info_of,
}
use cuddl.Ioctl.Release.{memregion_release_ioctl, eventsrc_release_ioctl}
use cuddl.Tests.World.{idle, fine}

abbrev no_sources : EventSet
no_sources = record { fds = λ i. false; max_fd = 0 }

-- All system calls succeed; the third one, of a claim, is its last.
abbrev outcome : ℕ → Outcome
outcome n = record {
  opens = ok 3;
  closes = none;
  maps = ok 8192;
  unmaps = none;
  reads = λ fd. ok 1;
  writes = λ fd value. none;
  selects = λ m s tv. ok s;
  call = fine;
  janitor_calls = record { copy_in = true; kzalloc = true };
}

abbrev pub env : Env
env = record { script = outcome; page_size = 4096; xeno = false; stack = [] }

abbrev pub process : Process
process = record {
  kernel = idle;
  pid = 8;
  fds = [];
  mappings = [];
  clock = 0;
  read_from = [];
  out = none;
  region = none;
  source = none;
  ready = no_sources;
  text = [];
  janitor = none;
  janitor_fd = ok 0;
}

perform-Left_example :
    Triple
      (Open [] [])
      (perform env (claim_memregion (some (codes "g")) none none (pos 1) 0))
      (Left [] [])
perform-Left_example =
    perform-Left env (claim_memregion (some (codes "g")) none none (pos 1) 0) [] []

memregion_claim_and_map-Handed_example :
    Triple
      (Open [] [])
      (memregion_claim_and_map env
        (some (codes "g"))
        (some (codes "d"))
        (some (codes "m"))
        (pos 1)
        0)
      (Handed [] [])
memregion_claim_and_map-Handed_example =
    memregion_claim_and_map-Handed [] [] env (some (codes "g")) (some (codes "d"))
      (some (codes "m")) (pos 1) 0

abbrev mapped : Result ℕ × Process
mapped =
    memregion_claim_and_map env (some (codes "g")) (some (codes "d")) (some (codes "m")) (pos 1) 0
      process

abbrev handed_region : MappedRegion
handed_region = record {
  addr = 8208;
  len = 64;
  flags = 0;
  pa_addr = 8192;
  pa_len = 4096;
  fd = 3;
  token = record { device_index = pos 0; resource_index = pos 0 };
}

mapped_returns : mapped.0 ≡ ok 0
unfolding memregion_claim_and_map memregion_claim_ioctl version_code_is_compat
    find_device_slot_matching scan strnlen strncmp device_find_memregion_slot
mapped_returns = refl

mapped_hands : mapped.1.region ≡ some handed_region
unfolding memregion_claim_and_map memregion_claim_ioctl version_code_is_compat
    find_device_slot_matching scan strnlen strncmp device_find_memregion_slot memregion_info_of
mapped_hands = refl

memregion_claim_and_map-unmap_and_release_example :
    let (result, q) = memregion_unmap_and_release env handed_region mapped.1 in
    GivenBack [] [] 8192 result q × Released process result q
memregion_claim_and_map-unmap_and_release_example =
    memregion_claim_and_map-unmap_and_release env (some (codes "g")) (some (codes "d"))
      (some (codes "m")) (pos 1) 0 process handed_region mapped_returns mapped_hands

abbrev opened : Result ℕ × Process
opened =
    eventsrc_claim_and_open env (some (codes "g")) (some (codes "d")) (some (codes "e")) (pos 1) 0
      process

abbrev handed_source : EventHandle
handed_source = record {
  flags = 14;
  fd = 3;
  token = record { device_index = pos 0; resource_index = pos 0 };
}

opened_returns : opened.0 ≡ ok 0
unfolding eventsrc_claim_and_open eventsrc_claim_ioctl version_code_is_compat
    find_device_slot_matching scan strnlen strncmp device_find_eventsrc_slot populate_id_from_args
opened_returns = refl

opened_hands : opened.1.source ≡ some handed_source
unfolding eventsrc_claim_and_open eventsrc_claim_ioctl version_code_is_compat
    find_device_slot_matching scan strnlen strncmp device_find_eventsrc_slot populate_id_from_args
    eventsrc_info_of
opened_hands = refl

eventsrc_claim_and_open-close_and_release_example :
    let (result, q) = eventsrc_close_and_release env handed_source opened.1 in
    Left [] [] result q × Released process result q
eventsrc_claim_and_open-close_and_release_example =
    eventsrc_claim_and_open-close_and_release env (some (codes "g")) (some (codes "d"))
      (some (codes "e")) (pos 1) 0 process handed_source opened_returns opened_hands

abbrev source_at : ℕ → EventHandle
source_at n = record handed_source { fd = n }

abbrev two_sources : EventSet
two_sources = record { fds = λ i. i == 3 || i == 5; max_fd = 5 }

abbrev one_second : Timespec
one_second = record { tv_sec = 1; tv_nsec = 0 }

all_read : AllRead env
all_read n fd = (1, refl)

eventsrcset_timed_wait-Waited_example :
    Waited two_sources
      (λ i. i == 3 || i == 5)
      process
      (eventsrcset_timed_wait env two_sources one_second process)
eventsrcset_timed_wait-Waited_example =
    eventsrcset_timed_wait-Waited env all_read two_sources one_second (λ i. i == 3 || i == 5)
      process refl

run-contains_example :
    (set : EventSet) × (run
        (adds (source_at 3) ∷ removes (source_at 4) ∷ [])
        eventsrcset_zero
        process
      ≡ (ok set, process))
    × (eventsrcset_contains set (source_at 3) process
        ≡ (ok (member_after (adds (source_at 3) ∷ removes (source_at 4) ∷ []) 3 false), process))
    × (set.fds 3 ≡ true → 3 ≤ set.max_fd)
run-contains_example =
    run-contains (adds (source_at 3) ∷ removes (source_at 4) ∷ []) (source_at 3) process
      (omega arith, (omega arith, tt)) (omega arith)

-- Unmapping and releasing the region returns 0 there.
released_returns : (memregion_unmap_and_release env handed_region mapped.1).0 ≡ ok 0
unfolding memregion_claim_and_map memregion_unmap_and_release memregion_claim_ioctl
    memregion_release_ioctl version_code_is_compat find_device_slot_matching scan strnlen strncmp
    device_find_memregion_slot memregion_info_of
released_returns = refl

closed_returns : (eventsrc_close_and_release env handed_source opened.1).0 ≡ ok 0
unfolding eventsrc_claim_and_open eventsrc_close_and_release eventsrc_claim_ioctl
    eventsrc_release_ioctl version_code_is_compat find_device_slot_matching scan strnlen strncmp
    device_find_eventsrc_slot populate_id_from_args eventsrc_info_of
closed_returns = refl
