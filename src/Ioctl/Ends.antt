-- ===== src/Ioctl/Ends.antt =====
-- Each command of cuddlk_manager_ioctl (kernel/linux/src/cuddlk_manager_linux.c) returns, with the
-- lock and the buffers as it found them.
use cuddl.Base.{
  ℕ, ◌≡◌, ◌≢◌, refl, Bool, true, false, Option, none, some, not, List, Errno, Result, ok, err,
  fault, ℤ, pos, ne→==, arith, ◌==◌, ◌==ℤ◌, einval, if◌then◌else◌,
}
use mathlib.Core.Path.{subst}
use cuddl.Device.{Device, device_find_memregion_slot, device_find_eventsrc_slot}
use cuddl.Device.Find.{device_find_memregion_slot-FindsFirst, device_find_eventsrc_slot-FindsFirst}
use cuddl.Kernel.{Kernel, M, Buffer, Reply, ◌>>=◌, ◌>>◌, pure, lift, check}
use cuddl.Kernel.Runs.{Runs, Runs-lift, Runs-pure, Runs-bind}
use cuddl.CStr.{Str}
use cuddl.Manager.{Query, memregion, eventsrc, find_device_slot_matching}
use cuddl.Manager.Search.{Halts, never-Halts, find_device_slot_matching-Finds}
use cuddl.Refs.{memregion_decr_ref_count, eventsrc_decr_ref_count}
use cuddl.Ioctl.Commands.{
  Call, ClaimData, ReleaseData, RefCountData, SlotData, DriverInfoData, IsEnabledData, copy_to_user,
  int_result,
}
use cuddl.Ioctl.Claim.{id_query, memregion_claim_ioctl, eventsrc_claim_ioctl}
use cuddl.Ioctl.Claim.Cases.{
  receive_cases, slot_cases, index_cases, memregion_claim_ioctl_cases, eventsrc_claim_ioctl_cases,
}
use cuddl.Ioctl.Release.{memregion_release_ioctl, eventsrc_release_ioctl}
use cuddl.Ioctl.Release.Outcome.{slot_below_cases, there_cases}
use cuddl.Ioctl.Query.{
  constant_ioctl, memregion_ref_count_ioctl, eventsrc_ref_count_ioctl, get_memregion_id_ioctl,
  get_eventsrc_id_ioctl, reply_id, copy_name, get_kernel_commit_id_ioctl, get_kernel_variant_ioctl,
  info_ioctl, eventsrc_is_enabled_ioctl, answer,
}
use cuddl.Ioctl.Returns.{
  Busy, Back, int_result-ne-fault, Runs-copy_to_user, memregion_decr-Runs, eventsrc_decr-Runs,
  memregion_claim_at-Back, eventsrc_claim_at-Back, memregion_release_at-Back,
  eventsrc_release_at-Back,
}

-- What a driver has to fill in before its device is managed.
pub record Complete (dev : Device) : Type 0 where
  pub group : dev.group ≢ none
  pub name : dev.name ≢ none
  pub regions : (i : ℕ) → (dev.mem i).type ≢ 0 → (dev.mem i).name ≢ none
  pub sources : (i : ℕ) → (dev.events i).intr.irq ≢ pos 0 → (dev.events i).name ≢ none
  pub is_enabled : (i : ℕ) → (dev.events i).intr.is_enabled ≢ some fault

abbrev pub AllComplete : Kernel → Type 0
AllComplete k = (s : ℕ) → k.devices s ≢ 0 → Complete (k.device (k.devices s))

not_zero : (x : ℤ) → (x ==ℤ pos 0) ≡ false → x ≡ pos 0 → ⊥
not_zero x t z = let u : true ≡ false = subst (λ y. (y ==ℤ pos 0) ≡ false) z t in cc

module _ (b : List Buffer) (k : Kernel) (h : Busy b k) where
  pub failed : (e : Errno) → Back b (err e, k)
  failed e = ((λ x. cc), h)

  returned : (n : ℕ) → Back b (ok n, k)
  returned n = ((λ x. cc), h)

  pub constant-Back : (c : Call) (v : ℤ) (n : ℕ) → Back b (constant_ioctl c v n k)
  unfolding constant_ioctl pure
  constant-Back c v n = receive_cases (Back b) c v (pure n) k failed λ _ _. returned n

  told : (c : Call) (r : Reply) → Back b ((copy_to_user c r (pure tt) >> pure 0) k)
  told c r =
      (Runs-bind (copy_to_user c r (pure tt)) _ (Runs-copy_to_user b c r (pure tt) (Runs-pure tt))
          (λ u. Runs-pure 0)).at
        k h

  pub commit_id-Back : (c : Call) (v : ℤ) → Back b (get_kernel_commit_id_ioctl c v k)
  unfolding get_kernel_commit_id_ioctl
  commit_id-Back c v = receive_cases (Back b) c v _ k failed λ _ _. told c _

  pub variant-Back : (c : Call) (v : ℤ) → Back b (get_kernel_variant_ioctl c v k)
  unfolding get_kernel_variant_ioctl
  variant-Back c v = receive_cases (Back b) c v _ k failed λ _ _. told c _

  halts : AllComplete k → (q : Query) (i : ℕ) → Halts k q i → Back b (fault, k)
  halts full q i x = absurd (never-Halts k q i (λ t n. ((full t n).group, (full t n).name)) x)

  pub memregion_claim-Back :
      AllComplete k
      → (c : Call) (z : ℕ) (rt claim : Bool) (s : ClaimData)
      → Back b (memregion_claim_ioctl c z rt claim s k)
  memregion_claim-Back full c z rt claim s =
      memregion_claim_ioctl_cases (Back b) k failed (halts full) c z rt claim s
        λ slot i l m there. memregion_claim_at-Back b k slot i there h c z rt claim s

  pub eventsrc_claim-Back :
      AllComplete k
      → (c : Call) (rt claim : Bool) (s : ClaimData) → Back b (eventsrc_claim_ioctl c rt claim s k)
  eventsrc_claim-Back full c rt claim s =
      eventsrc_claim_ioctl_cases (Back b) k failed (halts full) c rt claim s
        λ slot i l m there. eventsrc_claim_at-Back b k slot i there h c rt claim s

  pub memregion_release-Back : (c : Call) (s : ReleaseData) → Back b (memregion_release_ioctl c s k)
  unfolding memregion_release_ioctl ◌>>=◌
  memregion_release-Back c s = receive_cases (Back b) c s.version_code _ k failed λ _ _.
      slot_below_cases (Back b) k 256 s.token.device_index _ failed λ slot e l.
        there_cases (Back b) k (k.devices slot) _ failed λ there.
          slot_below_cases (Back b) k 5 s.token.resource_index _ failed
            λ i e' l'. memregion_release_at-Back b k slot i there h s

  pub eventsrc_release-Back : (c : Call) (s : ReleaseData) → Back b (eventsrc_release_ioctl c s k)
  unfolding eventsrc_release_ioctl ◌>>=◌
  eventsrc_release-Back c s = receive_cases (Back b) c s.version_code _ k failed λ _ _.
      slot_below_cases (Back b) k 256 s.token.device_index _ failed λ slot e l.
        there_cases (Back b) k (k.devices slot) _ failed λ there.
          slot_below_cases (Back b) k 1 s.token.resource_index _ failed
            λ i e' l'. eventsrc_release_at-Back b k slot i there h s

  counted-Back :
      (decrement : Bool) (m : M (Unit {0})) (n : ℕ)
      → Runs (Busy b) m
      → Back b ((if decrement then (m >> pure 0) else lift (int_result n)) k)
  counted-Back true m n r = (Runs-bind m _ r (λ u. Runs-pure 0)).at k h
  counted-Back false m n r = (Runs-lift {P = Busy b} (int_result n) (int_result-ne-fault n)).at k h

  pub memregion_count-Back :
      AllComplete k
      → (c : Call) (decrement : Bool) (s : RefCountData)
      → Back b (memregion_ref_count_ioctl c decrement s k)
  unfolding memregion_ref_count_ioctl ◌>>=◌
  memregion_count-Back full c decrement s =
      receive_cases (Back b) c s.version_code _ k failed λ _ _.
        slot_cases (Back b) k failed (halts full)
          (find_device_slot_matching k (id_query s.id memregion) 0) _
          (find_device_slot_matching-Finds k _ 0 (omega arith))
          λ slot l g. rw (ne→== (k.devices slot) 0 g.there) (
            index_cases (Back b) k failed (halts full)
              (device_find_memregion_slot (k.device (k.devices slot)) (some s.id.resource)) _
              (device_find_memregion_slot-FindsFirst _ _)
              (λ i l'.
                counted-Back decrement (memregion_decr_ref_count (k.devices slot) i) _
                  (memregion_decr-Runs b (k.devices slot) i g.there)))

  pub eventsrc_count-Back :
      AllComplete k
      → (c : Call) (decrement : Bool) (s : RefCountData)
      → Back b (eventsrc_ref_count_ioctl c decrement s k)
  unfolding eventsrc_ref_count_ioctl ◌>>=◌
  eventsrc_count-Back full c decrement s = receive_cases (Back b) c s.version_code _ k failed λ _ _.
      slot_cases (Back b) k failed (halts full)
        (find_device_slot_matching k (id_query s.id eventsrc) 0) _
        (find_device_slot_matching-Finds k _ 0 (omega arith))
        λ slot l g. rw (ne→== (k.devices slot) 0 g.there) (
          index_cases (Back b) k failed (halts full)
            (device_find_eventsrc_slot (k.device (k.devices slot)) (some s.id.resource)) _
            (device_find_eventsrc_slot-FindsFirst _ _)
            (λ i l'.
              counted-Back decrement (eventsrc_decr_ref_count (k.devices slot) i) _
                (eventsrc_decr-Runs b (k.devices slot) i g.there)))

  copy_name-Runs : (c : Call) (s : Option Str) → s ≢ none → Runs (Busy b) (copy_name c s)
  unfolding copy_name
  copy_name-Runs c none n = absurd (n refl)
  copy_name-Runs c (some s) n = Runs-pure _

  reply_id-Back :
      (c : Call) (dev : Device) (resource : Option Str)
      → Complete dev
      → resource ≢ none
      → Back b (reply_id c dev resource k)
  unfolding reply_id
  reply_id-Back c dev resource d n =
      (Runs-bind (copy_name c dev.group) _ (copy_name-Runs c dev.group d.group) λ g.
          Runs-bind (copy_name c dev.name) _ (copy_name-Runs c dev.name d.name) λ m.
            Runs-bind (copy_name c resource) _ (copy_name-Runs c resource n) λ r.
              Runs-bind (copy_to_user c _ (pure tt)) _
                (Runs-copy_to_user b c _ (pure tt) (Runs-pure tt)) λ u. Runs-pure 0).at
        k h

  checked-Back :
      (skip : Bool) (e : Errno) (m : M ℕ)
      → (skip ≡ false → Back b (m k))
      → Back b ((check (not skip) e >> m) k)
  unfolding check ◌>>=◌
  checked-Back true e m f = failed e
  checked-Back false e m f = f refl

  module _ (full : AllComplete k) where
    pub memregion_id-Back : (c : Call) (s : SlotData) → Back b (get_memregion_id_ioctl c s k)
    unfolding get_memregion_id_ioctl ◌>>=◌
    memregion_id-Back c s = receive_cases (Back b) c s.version_code _ k failed λ _ _.
        slot_below_cases (Back b) k 256 s.device_slot _ failed λ slot e l.
          slot_below_cases (Back b) k 5 s.resource_slot _ failed λ i e' l'.
            there_cases (Back b) k (k.devices slot) _ failed λ there.
              rw (ne→== (k.devices slot) 0 there) (
                checked-Back (((k.device (k.devices slot)).mem i).type == 0) einval _ (λ t.
                  let d = full slot there in
                  reply_id-Back c (k.device (k.devices slot))
                    ((k.device (k.devices slot)).mem i).name d (d.regions i (λ z. ground arith))))

    pub eventsrc_id-Back : (c : Call) (s : SlotData) → Back b (get_eventsrc_id_ioctl c s k)
    unfolding get_eventsrc_id_ioctl ◌>>=◌
    eventsrc_id-Back c s = receive_cases (Back b) c s.version_code _ k failed λ _ _.
        slot_below_cases (Back b) k 256 s.device_slot _ failed λ slot e l.
          slot_below_cases (Back b) k 1 s.resource_slot _ failed λ i e' l'.
            there_cases (Back b) k (k.devices slot) _ failed λ there.
              rw (ne→== (k.devices slot) 0 there) (
                checked-Back (((k.device (k.devices slot)).events i).intr.irq ==ℤ pos 0) einval _
                  (λ t.
                    let d = full slot there in
                    reply_id-Back c (k.device (k.devices slot))
                      ((k.device (k.devices slot)).events i).name d
                      (d.sources i
                        (λ z. not_zero ((k.device (k.devices slot)).events i).intr.irq t z))))

    pub info-Back :
        (c : Call) (f : Device → Option Str) (s : DriverInfoData) → Back b (info_ioctl c f s k)
    unfolding info_ioctl ◌>>=◌
    info-Back c f s = receive_cases (Back b) c s.version_code _ k failed λ _ _.
        slot_below_cases (Back b) k 256 s.device_slot _ failed λ slot e l.
          there_cases (Back b) k (k.devices slot) _ failed
            λ there. rw (ne→== (k.devices slot) 0 there) (told c _)

    answer-ne-fault : (x : Option (Result ℕ)) → x ≢ some fault → answer x ≢ fault
    answer-ne-fault none n = λ e. cc
    answer-ne-fault (some (ok v)) n = λ e. cc
    answer-ne-fault (some (err v)) n = λ e. cc
    answer-ne-fault (some fault) n = absurd (n refl)

    pub is_enabled-Back : (c : Call) (s : IsEnabledData) → Back b (eventsrc_is_enabled_ioctl c s k)
    unfolding eventsrc_is_enabled_ioctl ◌>>=◌
    is_enabled-Back c s = receive_cases (Back b) c s.version_code _ k failed λ _ _.
        slot_below_cases (Back b) k 256 s.token.device_index _ failed λ slot e l.
          there_cases (Back b) k (k.devices slot) _ failed λ there.
            rw (ne→== (k.devices slot) 0 there) (
              slot_below_cases (Back b) k 1 s.token.resource_index _ failed (λ i e' l'.
                (Runs-lift {P = Busy b}
                    (answer ((k.device (k.devices slot)).events i).intr.is_enabled)
                    (answer-ne-fault ((k.device (k.devices slot)).events i).intr.is_enabled
                      ((full slot there).is_enabled i))).at
                  k h))
