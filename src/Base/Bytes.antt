-- ===== src/Base/Bytes.antt =====
-- Bytes as numbers below 256. `bit_and` and `bit_or` compute at numerals only, so a law over all
-- bytes is a table that evaluation checks.
use Prim.Native.Nat.{ℕ, zero, suc, ◌<◌}
use embedjson.Base.Tests.{◌==◌, if◌then◌else◌}
use mathlib.Core.Bool.{Bool, true, false, ◌&&◌}
use mathlib.Core.List.{List, [], ◌∷◌}
use mathlib.Core.Path.{◌≡◌}
use native.Mathlib.Omega.{arith}

-- Whether two sequences of bytes are equal.
unfoldable pub same_bytes : List ℕ → List ℕ → Bool
same_bytes [] [] = true
same_bytes (a ∷ xs) (b ∷ ys) = (a == b) && same_bytes xs ys
same_bytes _ _ = false

-- The test passes at each number under the bound.
unfoldable pub passes : (ℕ → Bool) → ℕ → Bool
passes test zero = true
passes test (suc bound) = if test bound then passes test bound else false

pub passes-at :
    (test : ℕ → Bool) (bound k : ℕ) → passes test bound ≡ true → k < bound → test k ≡ true
unfolding passes
passes-at test zero k whole inside = elim inside [ ]
passes-at test (suc bound) k whole inside = ground (arith, passes-at test bound k)
