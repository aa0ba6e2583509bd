-- ===== src/View/Ledger.antt =====
-- What the manager promises: a ledger of how many references each process has to each resource. It
-- forgets the order of the lists.
use cuddl.Base.{
  ℕ, suc, ◌-◌, ◌≡◌, refl, ◌∙◌, Bool, true, false, ◌&&◌, List, [], ◌∷◌, arith, ◌==◌, if◌then◌else◌,
}
use cuddl.Kernel.{Kernel, ResourceRef}
use cuddl.Refs.{is_ref, remove_ref}
use cuddl.Refs.Cleanup.{others}

-- The kinds of resources.
pub data Side : Type 0 where
  region source : Side

-- By kind, slot, index in the device, and process.
abbrev pub Ledger : Type 0
Ledger = Side → ℕ → ℕ → ℕ → ℕ

abbrev pub same_side : Side → Side → Bool
same_side region region = true
same_side source source = true
same_side _ _ = false

-- The entry of one process for one resource is changed by `f`.
abbrev pub entry : (ℕ → ℕ) → Side → ℕ → ℕ → ℕ → Ledger → Ledger
entry f t s i p l t' s' i' p' =
    if same_side t t' && (s == s' && (i == i' && p == p')) then f (l t' s' i' p') else l t' s' i' p'

abbrev pub one_more : Side → ℕ → ℕ → ℕ → Ledger → Ledger
one_more = entry suc

abbrev pub one_less : Side → ℕ → ℕ → ℕ → Ledger → Ledger
one_less = entry (λ n. n - 1)

abbrev pub without_process : ℕ → Ledger → Ledger
without_process p l t s i p' = if p == p' then 0 else l t s i p'

abbrev pub Equal : Ledger → Ledger → Type 0
Equal l l' = (t : Side) (s i p : ℕ) → l' t s i p ≡ l t s i p

-- How many references the process has in a list.
unfoldable pub owned : ℕ → ℕ → ℕ → List ResourceRef → ℕ
owned s i p [] = 0
owned s i p (r ∷ rs) = if is_ref s i p r then suc (owned s i p rs) else owned s i p rs

-- The ledger that two lists stand for.
abbrev pub ledger : List ResourceRef → List ResourceRef → Ledger
ledger m e region s i p = owned s i p m
ledger m e source s i p = owned s i p e

abbrev pub view : Kernel → Ledger
view k = ledger k.mem_refs k.event_refs

-- `a`: the first reference is the one that is dropped; `b`: it is counted; `q`: the two are the same.
dropped_first :
    (a b q : Bool) (x y : ℕ)
    → (a ≡ true → b ≡ q)
    → (q ≡ true → a ≡ b)
    → y ≡ (if q then x - 1 else x)
    → (if a then x else (if b then suc y else y))
      ≡ (if q then (if b then suc x else x) - 1 else (if b then suc x else x))
dropped_first true b true x y f g h = ground (arith, f refl)
dropped_first true b false x y f g h = ground (arith, f refl)
dropped_first false b true x y f g h = ground (arith, g refl)
dropped_first false b false x y f g h = ground arith

module _ (s i p s' i' p' : ℕ) where
  same_entry : Bool
  same_entry = s == s' && (i == i' && p == p')

  counts_as : (r : ResourceRef) → is_ref s i p r ≡ true → is_ref s' i' p' r ≡ same_entry
  unfolding same_entry
  counts_as r e = ground arith

  drops_as : (r : ResourceRef) → same_entry ≡ true → is_ref s i p r ≡ is_ref s' i' p' r
  unfolding same_entry
  drops_as r e = ground arith

  owned-if :
      (a : Bool) (r : ResourceRef) (rs rest : List ResourceRef)
      → owned s' i' p' (if a then rs else r ∷ rest)
        ≡ (if a then owned s' i' p' rs else owned s' i' p' (r ∷ rest))
  owned-if true r rs rest = refl
  owned-if false r rs rest = refl

  owned-remove_ref :
      (refs : List ResourceRef)
      → owned s' i' p' (remove_ref s i p refs)
        ≡ (if same_entry then owned s' i' p' refs - 1 else owned s' i' p' refs)
  unfolding owned remove_ref
  owned-remove_ref [] = ground arith
  owned-remove_ref (r ∷ rs) =
      owned-if (is_ref s i p r) r rs (remove_ref s i p rs)
      ∙ dropped_first (is_ref s i p r) (is_ref s' i' p' r) same_entry (owned s' i' p' rs)
          (owned s' i' p' (remove_ref s i p rs)) (counts_as r) (drops_as r) (owned-remove_ref rs)

dropped_entry :
    (s i p s' i' p' : ℕ) (refs : List ResourceRef)
    → owned s' i' p' (remove_ref s i p refs)
      ≡ (if s == s' && (i == i' && p == p') then owned s' i' p' refs - 1 else owned s' i' p' refs)
unfolding same_entry
dropped_entry = owned-remove_ref

owned-others :
    (p s i p' : ℕ) (refs : List ResourceRef)
    → owned s i p' (others p refs) ≡ (if p == p' then 0 else owned s i p' refs)
unfolding owned others
owned-others p s i p' [] = ground arith
owned-others p s i p' (r ∷ rs) = ground (arith, owned-others p s i p' rs)

module _ (s i p : ℕ) (m e : List ResourceRef) where
  abbrev ref : ResourceRef
  ref = record { device_index = s; resource_index = i; pid = p }

  pub region_added : Equal (one_more region s i p (ledger m e)) (ledger (ref ∷ m) e)
  unfolding owned
  region_added region s' i' p' = ground arith
  region_added source s' i' p' = refl

  pub source_added : Equal (one_more source s i p (ledger m e)) (ledger m (ref ∷ e))
  unfolding owned
  source_added region s' i' p' = refl
  source_added source s' i' p' = ground arith

  pub region_dropped : Equal (one_less region s i p (ledger m e)) (ledger (remove_ref s i p m) e)
  region_dropped region s' i' p' = dropped_entry s i p s' i' p' m
  region_dropped source s' i' p' = refl

  pub source_dropped : Equal (one_less source s i p (ledger m e)) (ledger m (remove_ref s i p e))
  source_dropped region s' i' p' = refl
  source_dropped source s' i' p' = dropped_entry s i p s' i' p' e

pub process_dropped :
    (p : ℕ) (m e : List ResourceRef)
    → Equal (without_process p (ledger m e)) (ledger (others p m) (others p e))
process_dropped p m e region s i p' = owned-others p s i p' m
process_dropped p m e source s i p' = owned-others p s i p' e
