-- ===== src/View/Releases.antt =====
-- What a release leaves of the two lists of references (kernel/linux/src/cuddlk_manager_linux.c).
use cuddl.Base.{
  ℕ, ◌≡◌, refl, Bool-cases, inl, inr, List, Result, ok, err, fault, ℤ, pos, negsuc, ltb, not, ◌==◌,
  enodev,
}
use cuddl.Act.Triples.{Triple, Ends, Triple-bind}
use cuddl.Kernel.{Kernel, M, ResourceRef, ◌>>=◌, ◌>>◌, gets, check, lift}
use cuddl.Kernel.Keeps.{Keeps-gets, Keeps-check}
use cuddl.Refs.{remove_ref}
use cuddl.Ioctl.Commands.{Call, ReleaseData, receive, slot_below}
use cuddl.Ioctl.Release.{
  memregion_release_at, eventsrc_release_at, memregion_release_ioctl, eventsrc_release_ioctl,
}
use cuddl.Ioctl.Stays
use cuddl.View.Lists.{
  Lists, Leaves, Leaves-Ends, Kept, told, memregion_release_at-Leaves, eventsrc_release_at-Leaves,
}

module _ (m e : List ResourceRef) where
  -- The index that a token has for a slot below a bound.
  abbrev Below : ℤ → Result ℕ → Kernel → Type 0
  Below n (ok i) k = Lists m e k × (n ≡ pos i)
  Below n (err c) k = Lists m e k
  Below n fault k = Lists m e k

  below : (max : ℕ) (n : ℤ) → Triple (Lists m e) (lift (slot_below max n)) (Below n)
  unfolding lift
  below max (negsuc n) = record { at = λ k h. h }
  below max (pos n) = elim (Bool-cases (ltb n max)) [
    | inl l ↦ rw l (record { at = λ k h. (h, refl) })
    | inr l ↦ rw l (record { at = λ k h. h })
  ]

  Below-Ends : {A : Type 0} {P : Kernel → Type 0} (n : ℤ) → Ends (Below n) (Leaves {A = A} m e P)
  Below-Ends n = record { failed = λ c k h. h; stopped = λ k h. h }

  given :
      {A : Type 0} {E : Type 0} {a : M A} {Q : Result A → Kernel → Type 0}
      → (E → Triple (Lists m e) a Q)
      → Triple (λ k. Lists m e k × E) a Q
  given f = record { at = λ k h. (f h.1).at k h.0 }

  module _ (c : Call) (s : ReleaseData) where
    -- The list that a release leaves.
    abbrev pub Dropped : (ℕ → ℕ → Kernel → Type 0) → Kernel → Type 0
    Dropped P k =
        (slot i : ℕ) × (s.token.device_index ≡ pos slot)
        × (s.token.resource_index ≡ pos i)
        × P slot i k

    dropped :
        {P : ℕ → ℕ → Kernel → Type 0} (slot i : ℕ) (a : M ℕ)
        → s.token.device_index ≡ pos slot
        → s.token.resource_index ≡ pos i
        → Triple (Lists m e) a (Leaves m e (P slot i))
        → Triple (Lists m e) a (Leaves m e (Dropped P))
    dropped {P} slot i a d r t = record { at = λ k h. at (a k).0 (a k).1 (t.at k h) }
      where
        at : (x : Result ℕ) (k : Kernel) → Leaves m e (P slot i) x k → Leaves m e (Dropped P) x k
        at (ok n) k h = (slot, i, d, r, h)
        at (err z) k h = h
        at fault k h = h

    -- A release checks its token, and then acts on the resource that it names.
    released :
        (P : ℕ → ℕ → Kernel → Type 0) (max : ℕ) (act : ℕ → ℕ → M ℕ)
        → ((slot i : ℕ) → Triple (Lists m e) (act slot i) (Leaves m e (P slot i)))
        → Triple
            (Lists m e)
            (receive c s.version_code
              >> (lift (slot_below 256 s.token.device_index) >>= λ slot.
                  gets (λ k. k.devices slot) >>= λ p.
                  check (not (p == 0)) enodev
                  >> (lift (slot_below max s.token.resource_index) >>= λ i. act slot i)))
            (Leaves m e (Dropped P))
    released P max act t =
        Triple-bind (receive c s.version_code) _
          (Kept m e (Stays.Keeps-receive (told m e) c s.version_code)) (Leaves-Ends m e)
          λ u.
            Triple-bind (lift (slot_below 256 s.token.device_index)) _
              (below 256 s.token.device_index) (Below-Ends s.token.device_index)
              λ slot. given λ d.
                Triple-bind (gets (λ k. k.devices slot)) _
                  (Kept m e (Keeps-gets (λ k. k.devices slot))) (Leaves-Ends m e)
                  λ p.
                    Triple-bind (check (not (p == 0)) enodev) _
                      (Kept m e (Keeps-check (not (p == 0)) enodev)) (Leaves-Ends m e)
                      λ v.
                        Triple-bind (lift (slot_below max s.token.resource_index)) _
                          (below max s.token.resource_index) (Below-Ends s.token.resource_index)
                          λ i. given λ r. dropped slot i (act slot i) d r (t slot i)

    pub memregion_release_ioctl-Leaves :
        Triple
          (Lists m e)
          (memregion_release_ioctl c s)
          (Leaves m e (Dropped (λ slot i. Lists (remove_ref slot i s.pid m) e)))
    unfolding memregion_release_ioctl
    memregion_release_ioctl-Leaves =
        released (λ slot i. Lists (remove_ref slot i s.pid m) e) 5 (memregion_release_at s)
          λ slot i. memregion_release_at-Leaves m e slot i s

    pub eventsrc_release_ioctl-Leaves :
        Triple
          (Lists m e)
          (eventsrc_release_ioctl c s)
          (Leaves m e (Dropped (λ slot i. Lists m (remove_ref slot i s.pid e))))
    unfolding eventsrc_release_ioctl
    eventsrc_release_ioctl-Leaves =
        released (λ slot i. Lists m (remove_ref slot i s.pid e)) 1 (eventsrc_release_at s)
          λ slot i. eventsrc_release_at-Leaves m e slot i s
