-- ===== src/Cpp/Flags/Laws.antt =====
-- A set of flags behaves as a set.
use Prim.Native.Nat.{max, min}
use native.Mathlib.Nat.{pow-suc, one-le-pow, pow-le-pow_right}
use cuddl.Base.{
  ℕ, zero, suc, ◌-◌, ◌/◌, ◌^◌, ◌<◌, ◌≤◌, ◌≡◌, refl, ◌⊎◌, inl, inr, Bool, true, false, List, [], ◌∷◌,
  not, ◌&&◌, ◌||◌, ◌==◌, if◌then◌else◌, arith, bit, bit-bit_or, bit-bit_and, bit-complement,
  bit_and-one_bit,
}
use native.Mathlib.Decide.{dec_lt}
use cuddl.Cpp.Flags.{
  EventSrcFlag, MemRegionFlag, eventsrc_flag_as_int, memregion_flag_as_int, Flags, is_set, set,
  clear, FlagsOp, set_flag, clear_flag, set_flags, clear_flags, apply, apply_all,
}

-- Each flag is one bit of an `int`.
pub record OneBit {F : Type 0} (as_int : F → ℕ) : Type 0 where
  pub position : F → ℕ
  pub below : (f : F) → position f < 32
  pub one_bit : (f : F) → as_int f ≡ 2 ^ position f

bit-le : (x k : ℕ) → bit x k ≤ 1
unfolding bit
bit-le x zero = omega arith
bit-le x (suc k) = bit-le (x / 2) k

bit-zero : (k : ℕ) → bit 0 k ≡ 0
unfolding bit
bit-zero zero = refl
bit-zero (suc k) = bit-zero k

pub bit-pow : (j k : ℕ) → bit (2 ^ j) k ≡ (if j == k then 1 else 0)
unfolding bit
bit-pow zero zero = refl
bit-pow zero (suc k) = ground (arith, bit-zero k)
bit-pow (suc j) zero = ground (arith, pow-suc 2 j)
bit-pow (suc j) (suc k) =
    let half : 2 ^ suc j / 2 ≡ 2 ^ j = omega (arith, pow-suc 2 j) in
    rw half (ground (arith, bit-pow j k))

bit-cases : (x k : ℕ) → (bit x k ≡ 0) ⊎ (bit x k ≡ 1)
bit-cases x k = elim (dec_lt 0 (bit x k)) [
  | yes h ↦ inr (omega (arith, bit-le x k))
  | no h ↦ inl (omega arith)
]

-- The tests of single digits.
or_test : (a b : ℕ) → a ≤ 1 → b ≤ 1 → (max a b == 1) ≡ ((a == 1) || (b == 1))
or_test a b h k = ground arith

and_not_test : (a b : ℕ) → a ≤ 1 → b ≤ 1 → (min a (1 - b) == 1) ≡ ((a == 1) && not (b == 1))
and_not_test a b h k = ground arith

is_set-bit : (s k : ℕ) → is_set s (2 ^ k) ≡ (bit s k == 1)
unfolding is_set
is_set-bit s k = elim (bit-cases s k) [
  | inl e ↦ rw (bit_and-one_bit k s, e) (ground arith)
  | inr e ↦ rw (bit_and-one_bit k s, e) (ground (arith, one-le-pow k 2))
]

pub is_set-set : (s t k : ℕ) → is_set (set s t) (2 ^ k) ≡ (is_set s (2 ^ k) || is_set t (2 ^ k))
unfolding set
is_set-set s t k =
    rw (is_set-bit, is_set-bit, is_set-bit, bit-bit_or) (or_test _ _ (bit-le s k) (bit-le t k))

pub is_set-clear :
    (s t k : ℕ)
    → k < 32
    → t < 2 ^ 32
    → is_set (clear s t) (2 ^ k) ≡ (is_set s (2 ^ k) && not (is_set t (2 ^ k)))
unfolding clear
is_set-clear s t k h l =
    rw (is_set-bit, is_set-bit, is_set-bit, bit-bit_and, bit-complement k 32 t h l)
      (and_not_test _ _ (bit-le s k) (bit-le t k))

is_set-one_bit : (j k : ℕ) → is_set (2 ^ j) (2 ^ k) ≡ (j == k)
is_set-one_bit j k = rw (is_set-bit, bit-pow) (ground arith)

module _ {F : Type 0} {as_int : F → ℕ} (o : OneBit as_int) where
  -- The whole sets that an operation names fit into an `int`.
  abbrev IsSmall : FlagsOp F → Type 0
  IsSmall (set_flag f) = Unit
  IsSmall (clear_flag f) = Unit
  IsSmall (set_flags t) = t < 2 ^ 32
  IsSmall (clear_flags t) = t < 2 ^ 32

  abbrev pub Fits : List (FlagsOp F) → Type 0
  Fits [] = Unit
  Fits (op ∷ ops) = IsSmall op × Fits ops

  -- Whether `f` is a member after the operation, when `b` says whether it was before.
  abbrev pub member : FlagsOp F → F → Bool → Bool
  member (set_flag g) f b = if o.position g == o.position f then true else b
  member (clear_flag g) f b = if o.position g == o.position f then false else b
  member (set_flags t) f b = b || is_set t (as_int f)
  member (clear_flags t) f b = b && not (is_set t (as_int f))

  abbrev pub member_after : List (FlagsOp F) → F → Bool → Bool
  member_after [] f b = b
  member_after (op ∷ ops) f b = member_after ops f (member op f b)

  pow-lt : (f : F) → 2 ^ o.position f < 2 ^ 32
  pow-lt f = omega (
    arith,
    o.below f,
    pow-le-pow_right {n = 2} (omega arith) {i = o.position f} {j = 31} (omega (arith, o.below f)),
  )

  apply-member :
      (op : FlagsOp F) (s : Flags) (f : F)
      → IsSmall op
      → is_set (apply as_int op s) (as_int f) ≡ member op f (is_set s (as_int f))
  unfolding apply
  apply-member (set_flag g) s f h =
      rw (o.one_bit g, o.one_bit f, is_set-set, is_set-one_bit) (ground arith)
  apply-member (clear_flag g) s f h =
      rw (o.one_bit g, o.one_bit f, is_set-clear s _ _ (o.below f) (pow-lt g), is_set-one_bit)
        (ground arith)
  apply-member (set_flags t) s f h = rw (o.one_bit f, is_set-set) refl
  apply-member (clear_flags t) s f h = rw (o.one_bit f, is_set-clear s t _ (o.below f) h) refl

  -- Where every flag is one bit of an `int`: after any calls that set and clear single flags and sets
  -- of them, which fit an `int`, a flag is in the set exactly if the calls, in their order, have left
  -- it there.
  pub apply_all-member :
      (ops : List (FlagsOp F)) (s : Flags) (f : F)
      → Fits ops
      → is_set (apply_all as_int ops s) (as_int f) ≡ member_after ops f (is_set s (as_int f))
  unfolding apply_all
  apply_all-member [] s f h = refl
  apply_all-member (op ∷ ops) s f (h, hs) =
      rw (← apply-member op s f h) (apply_all-member ops (apply as_int op s) f hs)

-- The flags of event sources and of memory regions are such flags.
abbrev eventsrc_position : EventSrcFlag → ℕ
eventsrc_position EventSrcFlag.shared = 0
eventsrc_position EventSrcFlag.waitable = 1
eventsrc_position EventSrcFlag.has_disable = 2
eventsrc_position EventSrcFlag.has_enable = 3
eventsrc_position EventSrcFlag.has_is_enabled = 4

pub eventsrc_below : (f : EventSrcFlag) → eventsrc_position f < 32
eventsrc_below EventSrcFlag.shared = omega arith
eventsrc_below EventSrcFlag.waitable = omega arith
eventsrc_below EventSrcFlag.has_disable = omega arith
eventsrc_below EventSrcFlag.has_enable = omega arith
eventsrc_below EventSrcFlag.has_is_enabled = omega arith

pub eventsrc_one_bit : (f : EventSrcFlag) → eventsrc_flag_as_int f ≡ 2 ^ eventsrc_position f
eventsrc_one_bit EventSrcFlag.shared = refl
eventsrc_one_bit EventSrcFlag.waitable = refl
eventsrc_one_bit EventSrcFlag.has_disable = refl
eventsrc_one_bit EventSrcFlag.has_enable = refl
eventsrc_one_bit EventSrcFlag.has_is_enabled = refl

pub memregion_one_bit : (f : MemRegionFlag) → memregion_flag_as_int f ≡ 2 ^ 0
memregion_one_bit MemRegionFlag.shared = refl

abbrev pub eventsrc_bits : OneBit eventsrc_flag_as_int
eventsrc_bits = record {
  position = eventsrc_position;
  below = eventsrc_below;
  one_bit = eventsrc_one_bit;
}

abbrev pub memregion_bits : OneBit memregion_flag_as_int
memregion_bits = record { position = λ f. 0; below = λ f. omega arith; one_bit = memregion_one_bit }
