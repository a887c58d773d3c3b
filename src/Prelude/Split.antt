-- ===== src/Prelude/Split.antt =====
-- strings.Split by a one-character separator.
use Prim.Native.Char.{Char, code}
use Prim.Native.String.{String, [] as empty, ◌∷◌ as ◌then◌}
use Prim.Native.Nat.{ℕ}
use mathlib.Core.List.{List, [], ◌∷◌}
use llmgateway_go.Prelude.Tests.{eqb, if◌then◌else◌}

-- A character before the first piece.
abbrev lead : Char → List String → List String
lead c [] = (c then empty) ∷ []
lead c (s ∷ rest) = (c then s) ∷ rest

unfoldable pub split : ℕ → String → List String
split separator empty = "" ∷ []
split separator (c then s) =
    let rest = split separator s in if eqb (code c) separator then "" ∷ rest else lead c rest
