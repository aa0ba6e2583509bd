-- ===== src/Cpp/Versions/Order.antt =====
-- Version codes hold their three numbers, and order as they do.
use Prim.Native.Nat.{bit_or}
use cuddl.Base.{
  ℕ, ◌+◌, ◌*◌, ◌^◌, ◌<◌, ◌≡◌, refl, ap, Bool, not, ◌&&◌, ◌||◌, ◌==◌, ltb, pos, arith,
  bit_or-disjoint, bit_and-mask,
}
use cuddl.Cpp.Versions.{
  Version, version, version_macro, major, minor, revision, minor_version_from_code,
  revision_level_from_code, version_eq, version_ne, version_lt, version_gt, version_le, version_ge,
}

-- The three numbers of a version, within the width of their fields.
pub record Numbers : Type 0 where
  pub maj : ℕ
  pub min : ℕ
  pub rev : ℕ
  pub maj_fits : maj < 2 ^ 15
  pub min_fits : min < 2 ^ 8
  pub rev_fits : rev < 2 ^ 8

abbrev pub version_of : Numbers → Version
version_of a = version a.maj a.min a.rev

-- The first number that differs decides.
abbrev pub before : Numbers → Numbers → Bool
before a b =
    ltb a.maj b.maj || (a.maj == b.maj && (ltb a.min b.min || (a.min == b.min && ltb a.rev b.rev)))

abbrev pub same : Numbers → Numbers → Bool
same a b = a.maj == b.maj && (a.min == b.min && a.rev == b.rev)

pub record Faithful (a b : Numbers) : Type 0 where
  pub major_back : major (version_of a) ≡ pos a.maj
  pub minor_back : minor (version_of a) ≡ a.min
  pub revision_back : revision (version_of a) ≡ a.rev
  pub eq : version_eq (version_of a) (version_of b) ≡ same a b
  pub ne : version_ne (version_of a) (version_of b) ≡ not (same a b)
  pub lt : version_lt (version_of a) (version_of b) ≡ before a b
  pub gt : version_gt (version_of a) (version_of b) ≡ before b a
  pub le : version_le (version_of a) (version_of b) ≡ not (before b a)
  pub ge : version_ge (version_of a) (version_of b) ≡ not (before a b)

macro_sum : (a : Numbers) → version_macro a.maj a.min a.rev ≡ a.maj * 65536 + a.min * 256 + a.rev
unfolding version_macro
macro_sum a =
    let fields : bit_or (a.maj * 2 ^ 16) (a.min * 2 ^ 8) ≡ (a.maj * 256 + a.min) * 2 ^ 8 =
      omega (arith, bit_or-disjoint 16 a.maj (a.min * 256) (omega (arith, a.min_fits))) in
    rw (fields, bit_or-disjoint 8 (a.maj * 256 + a.min) a.rev a.rev_fits) (omega arith)

minor_of_sum :
    (a : Numbers) → minor_version_from_code (pos (a.maj * 65536 + a.min * 256 + a.rev)) ≡ a.min
unfolding minor_version_from_code
minor_of_sum a =
    let low : (a.min * 256 + a.rev) < 2 ^ 16 = omega (arith, a.min_fits, a.rev_fits) in
    let split : a.maj * 65536 + a.min * 256 + a.rev ≡ a.maj * 2 ^ 16 + (a.min * 256 + a.rev) =
      omega arith in
    rw (split, bit_and-mask 16 a.maj (a.min * 256 + a.rev) low) (omega (arith, a.rev_fits))

revision_of_sum :
    (a : Numbers) → revision_level_from_code (pos (a.maj * 65536 + a.min * 256 + a.rev)) ≡ a.rev
unfolding revision_level_from_code
revision_of_sum a =
    let split : a.maj * 65536 + a.min * 256 + a.rev ≡ (a.maj * 256 + a.min) * 2 ^ 8 + a.rev =
      omega arith in
    rw (split, bit_and-mask 8 (a.maj * 256 + a.min) a.rev a.rev_fits) refl

-- The tests on the sums.
before_sum :
    (a b : Numbers)
    → ltb (a.maj * 65536 + a.min * 256 + a.rev) (b.maj * 65536 + b.min * 256 + b.rev) ≡ before a b
before_sum a b = ground (arith, a.min_fits, a.rev_fits, b.min_fits, b.rev_fits)

same_sum :
    (a b : Numbers)
    → (a.maj * 65536 + a.min * 256 + a.rev == b.maj * 65536 + b.min * 256 + b.rev) ≡ same a b
same_sum a b = ground (arith, a.min_fits, a.rev_fits, b.min_fits, b.rev_fits)

-- Versions that are made from numbers which fit their fields give the numbers back, and each of the
-- six comparisons of two of them is that of their numbers, the major number first.
pub version-Faithful : (a b : Numbers) → Faithful a b
unfolding version major minor revision version_eq version_ne version_lt version_gt version_le
    version_ge
version-Faithful a b = record {
  major_back = rw (macro_sum a) (ap pos (omega (arith, a.min_fits, a.rev_fits)));
  minor_back = rw (macro_sum a) (minor_of_sum a);
  revision_back = rw (macro_sum a) (revision_of_sum a);
  eq = rw (macro_sum a, macro_sum b) (same_sum a b);
  ne = rw (macro_sum a, macro_sum b) (ap not (same_sum a b));
  lt = rw (macro_sum a, macro_sum b) (before_sum a b);
  gt = rw (macro_sum a, macro_sum b) (before_sum b a);
  le = rw (macro_sum a, macro_sum b) (ap not (before_sum b a));
  ge = rw (macro_sum a, macro_sum b) (ap not (before_sum a b));
}
