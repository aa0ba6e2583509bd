-- ===== src/Cpp/Names/RoundTrip.antt =====
-- Printing an identifier and reading it back.
use cuddl.Base.{
  ℕ, zero, suc, ◌+◌, ◌-◌, ◌≡◌, refl, some, [], ◌∷◌, ◌++◌, arith, length, take, drop, ℤ, pos, negsuc,
}
use cuddl.CStr.{Str, max_str_len, padded, strncpy, text}
use cuddl.Kernel.{ResourceId}
use cuddl.Cpp.Strings.{find, to_string, stoi}
use cuddl.Cpp.Strings.Laws.{IsPart, find_behind, substr_behind, drop_behind, after_slash}
use cuddl.Cpp.Strings.Numbers.{IsInt, stoi-to_string}
use cuddl.Cpp.Names.{
  zero_id, set_name, resource_id, with_group, with_device, with_resource, with_instance, starred,
  instance_text, full_name, set_instance, set_resource, set_device, set_group, of_full_name,
}

-- What a name array holds after `strncpy` of at most `n` bytes onto zeros.
text-zeros : (n : ℕ) → text (padded [] n) ≡ []
unfolding text padded
text-zeros zero = refl
text-zeros (suc n) = refl

text-drop_zeros : (m n : ℕ) → text (drop m (padded [] n)) ≡ []
unfolding padded
text-drop_zeros zero n = text-zeros n
text-drop_zeros (suc m) zero = unfold text in refl
text-drop_zeros (suc m) (suc n) = text-drop_zeros m n

text-padded : (s t : Str) (n : ℕ) → IsPart s → text t ≡ [] → text (padded s n ++ t) ≡ take n s
unfolding text padded
text-padded s t zero h e = e
text-padded [] t (suc n) h e = refl
text-padded (c ∷ s) t (suc n) (z, _, h) e = ground (arith, text-padded s t n h e)

padded-take : (s : Str) (n : ℕ) → IsPart s → padded (take n s) n ≡ padded s n
unfolding padded
padded-take s zero h = refl
padded-take [] (suc n) h = refl
padded-take (c ∷ s) (suc n) (z, _, h) = ground (arith, padded-take s n h)

IsPart-take : (s : Str) (n : ℕ) → IsPart s → IsPart (take n s)
IsPart-take s zero h = tt
IsPart-take [] (suc n) h = tt
IsPart-take (c ∷ s) (suc n) (z, l, h) = (z, l, IsPart-take s n h)

-- The array for a name, and the name in it.
abbrev array : Str → Str
array s = set_name (padded [] max_str_len) s

abbrev kept : Str → Str
kept s = take (max_str_len - 1) s

text-array : (s : Str) → IsPart s → text (array s) ≡ kept s
unfolding set_name strncpy
text-array s h = text-padded s _ (max_str_len - 1) h (text-drop_zeros (max_str_len - 1) max_str_len)

array-kept : (s : Str) → IsPart s → array (kept s) ≡ array s
unfolding set_name strncpy
array-kept s h = rw (padded-take s (max_str_len - 1) h) refl

-- The four parts, one behind the other.
abbrev path : Str → Str → Str → Str → Str
path g d r t = g ++ 47 ∷ (d ++ 47 ∷ (r ++ 47 ∷ t))

module _ (g d r t : Str) where
  module _ (hg : IsPart g) (hd : IsPart d) (hr : IsPart r) where
    resource_read :
        (id : ResourceId) (i : ℕ)
        → drop (i + 1) (path g d r t) ≡ r ++ 47 ∷ t
        → set_resource (path g d r t) i (find (path g d r t) 47 (i + 1)) id
          ≡ set_instance t (with_resource r id)
    unfolding set_resource
    resource_read id i e =
        rw
          (
            find_behind _ (i + 1) r t e hr,
            (let n : i + 1 + length r - i - 1 ≡ length r = omega arith in n),
            substr_behind _ (i + 1) r (47 ∷ t) e,
            drop_behind _ (i + 1) r t e,
          )
          refl

    device_read :
        (id : ResourceId) (i : ℕ)
        → drop (i + 1) (path g d r t) ≡ d ++ 47 ∷ (r ++ 47 ∷ t)
        → set_device (path g d r t) i (find (path g d r t) 47 (i + 1)) id
          ≡ set_instance t (with_resource r (with_device d id))
    unfolding set_device
    device_read id i e =
        rw
          (
            find_behind _ (i + 1) d _ e hd,
            (let n : i + 1 + length d - i - 1 ≡ length d = omega arith in n),
            substr_behind _ (i + 1) d (47 ∷ (r ++ 47 ∷ t)) e,
          )
          (resource_read (with_device d id) (i + 1 + length d) (drop_behind _ (i + 1) d _ e))

    path_read :
        of_full_name (path g d r t)
        ≡ set_instance t (with_resource r (with_device d (with_group g zero_id)))
    unfolding of_full_name set_group
    path_read =
        rw
          (
            find_behind (path g d r t) 0 g (d ++ 47 ∷ (r ++ 47 ∷ t)) refl hg,
            (let n : 0 + length g ≡ length g = omega arith in n),
            substr_behind (path g d r t) 0 g (47 ∷ (d ++ 47 ∷ (r ++ 47 ∷ t))) refl,
          )
          (device_read (with_group g zero_id) (length g) (after_slash g _))

-- What is read back for an instance number: none is 0.
abbrev pub reread : ℤ → ℤ
reread (pos zero) = negsuc 0
reread (pos (suc n)) = pos (suc n)
reread (negsuc n) = negsuc n

set_instance-some :
    (s : Str) (id : ResourceId) {i : ℤ} → stoi s ≡ some i → set_instance s id ≡ with_instance i id
unfolding set_instance
set_instance-some [] id h = cc
set_instance-some (c ∷ s) id h = rw h refl

instance_read :
    (i : ℤ) (id : ResourceId)
    → IsInt i
    → set_instance (instance_text i) id ≡ with_instance (reread i) id
instance_read (pos zero) id h = unfold set_instance stoi in refl
instance_read (pos (suc n)) id h =
    set_instance-some (to_string (pos (suc n))) id (stoi-to_string (pos (suc n)) h)
instance_read (negsuc n) id h =
    set_instance-some (to_string (negsuc n)) id (stoi-to_string (negsuc n) h)

IsPart-starred : (s : Str) → IsPart s → IsPart (starred (kept s))
IsPart-starred [] h = omega arith
IsPart-starred (c ∷ s) (z, l, h) = (z, l, IsPart-take s 254 h)

array-starred : (s : Str) → IsPart s → array (starred (kept s)) ≡ array (starred s)
array-starred [] h = refl
array-starred (c ∷ s) h = array-kept (c ∷ s) h

-- The full name of an identifier that was made from names without a slash and an `int`, read back,
-- is the identifier made from the same names, but with "*" in the place of each empty one, and from
-- the same number, but with -1 in the place of 0.
pub of_full_name-full_name :
    (g d r : Str) (i : ℤ)
    → IsPart g
    → IsPart d
    → IsPart r
    → IsInt i
    → of_full_name (full_name (resource_id g d r i))
      ≡ resource_id (starred g) (starred d) (starred r) (reread i)
unfolding full_name resource_id zero_id
of_full_name-full_name g d r i hg hd hr hi =
    rw (text-array g hg, text-array d hd, text-array r hr)
      (rw
        (path_read (starred (kept g)) (starred (kept d)) (starred (kept r)) (instance_text i)
          (IsPart-starred g hg) (IsPart-starred d hd) (IsPart-starred r hr))
        (rw (instance_read i _ hi, array-starred g hg, array-starred d hd, array-starred r hr)
          refl))
