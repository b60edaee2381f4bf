-- ===== src/Prelude/Ratio.antt =====
-- Fractions of natural numbers, for the scores between 0 and 1. The denominator is never 0 where the
-- program builds one; the difference stops at 0, which is what the program's clamp makes of it.
use Prim.Native.Nat.{ℕ, ◌+◌, ◌-◌, ◌*◌, ◌/◌, ◌%◌}
use Prim.Native.String.{String}
use mathlib.Core.Path.{◌≡◌, refl}
use mathlib.Core.Bool.{Bool}
use ghost_busters.Prelude.Tests.{ltb, leb}
use ghost_busters.Prelude.Text.{append, show}

pub record Ratio : Type 0 where
  pub num : ℕ
  pub den : ℕ

abbrev pub ratio : ℕ → ℕ → Ratio
ratio n d = record { num = n; den = d }

abbrev pub add : Ratio → Ratio → Ratio
add a b = ratio (a.num * b.den + b.num * a.den) (a.den * b.den)

-- max(0, a - b)
abbrev pub sub : Ratio → Ratio → Ratio
sub a b = ratio (a.num * b.den - b.num * a.den) (a.den * b.den)

abbrev pub mul : Ratio → Ratio → Ratio
mul a b = ratio (a.num * b.num) (a.den * b.den)

abbrev pub ltb_ratio : Ratio → Ratio → Bool
ltb_ratio a b = ltb (a.num * b.den) (b.num * a.den)

abbrev pub leb_ratio : Ratio → Ratio → Bool
leb_ratio a b = leb (a.num * b.den) (b.num * a.den)

-- `f"{x:.2f}"`, with halves rounded up
unfoldable pub fixed2 : Ratio → String
unfolding show
fixed2 a =
    let hundredths : ℕ = (200 * a.num + a.den) / (2 * a.den) in
    append (show (hundredths / 100))
      (append "." (append (show (hundredths % 100 / 10)) (show (hundredths % 10))))

prints : fixed2 (ratio 2 3) ≡ "0.67"
unfolding fixed2
prints = refl
