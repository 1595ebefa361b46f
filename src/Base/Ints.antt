-- ===== src/Base/Ints.antt =====
-- Go's `int` where it can be negative, with its order.
use Prim.Native.Nat.{ℕ, ◌+◌, ◌-◌}
use mathlib.Core.Path.{◌≡◌}
use mathlib.Core.Bool.{Bool, true, false}
use native.Mathlib.Omega.{arith}
use nineguard.Base.Tests.{ltb, leb, if◌then◌else◌}

pub data ℤ : Type 0 where
  pos negsuc : ℕ → ℤ

abbrev pub ltz : ℤ → ℤ → Bool
ltz (pos a) (pos b) = ltb a b
ltz (pos a) (negsuc b) = false
ltz (negsuc a) (pos b) = true
ltz (negsuc a) (negsuc b) = ltb b a

infixl 20 ◌+ℤ◌
abbrev less : ℕ → ℕ → ℤ
less a b = if leb b a then pos (a - b) else negsuc (b - a - 1)

-- The sum, of numbers that no `int` overflows with.
unfoldable pub ◌+ℤ◌ : ℤ → ℤ → ℤ
pos a +ℤ pos b = pos (a + b)
pos a +ℤ negsuc b = less a (b + 1)
negsuc a +ℤ pos b = less b (a + 1)
negsuc a +ℤ negsuc b = negsuc (a + b + 1)

pub ltz_trans : (a b c : ℤ) → ltz a b ≡ true → ltz b c ≡ true → ltz a c ≡ true
ltz_trans (pos a) (pos b) (pos c) h k = ground arith
ltz_trans (pos a) (pos b) (negsuc c) h k = cc
ltz_trans (pos a) (negsuc b) c h k = cc
ltz_trans (negsuc a) (pos b) (pos c) h k = h
ltz_trans (negsuc a) (pos b) (negsuc c) h k = cc
ltz_trans (negsuc a) (negsuc b) (pos c) h k = k
ltz_trans (negsuc a) (negsuc b) (negsuc c) h k = ground arith

pub ltz_irrefl : (a : ℤ) → ltz a a ≡ false
ltz_irrefl (pos a) = ground arith
ltz_irrefl (negsuc a) = ground arith

pub ltz_weak : (a b c : ℤ) → ltz a b ≡ false → ltz b c ≡ false → ltz a c ≡ false
ltz_weak (pos a) (pos b) (pos c) h k = ground arith
ltz_weak (pos a) (pos b) (negsuc c) h k = k
ltz_weak (pos a) (negsuc b) (pos c) h k = cc
ltz_weak (pos a) (negsuc b) (negsuc c) h k = h
ltz_weak (negsuc a) (pos b) c h k = cc
ltz_weak (negsuc a) (negsuc b) (pos c) h k = cc
ltz_weak (negsuc a) (negsuc b) (negsuc c) h k = ground arith
