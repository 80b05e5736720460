-- ===== src/Prelude/Texts.antt =====
-- What the program does with texts besides comparing them.
use Prim.Native.Char.{code}
use Prim.Native.String.{String}
use Prim.Native.String
use mathlib.Core.Bool.{Bool, true, ◌&&◌, ◌||◌}
use mathlib.Core.List.{List, [], ◌∷◌}
use Prim.Native.Nat.{ℕ, zero, suc}
use text.Mathlib.Text.{◌==◌}
use sentinel_act.Prelude.Tests.{if◌then◌else◌, eqb, leb}

-- A template literal: its parts one after another.
unfoldable pub template : List String → String
template [] = ""
template (s ∷ ss) = String.◌++◌ s (template ss)

-- `s.slice(0, n)`, in code points: the texts that the program slices are dates.
unfoldable pub slice_to : ℕ → String → String
slice_to zero s = ""
slice_to (suc n) String.[] = ""
slice_to (suc n) (String.◌∷◌ c s) = String.◌∷◌ c (slice_to n s)

-- White space and line ends, as `trim` removes them.
abbrev is_space : ℕ → Bool
is_space c =
    (leb 9 c && leb c 13)
    || eqb c 32
    || eqb c 160
    || eqb c 5760
    || (leb 8192 c && leb c 8202)
    || eqb c 8232
    || eqb c 8233
    || eqb c 8239
    || eqb c 8287
    || eqb c 12288
    || eqb c 65279

-- `s.trim().length === 0`
unfoldable pub is_blank : String → Bool
is_blank String.[] = true
is_blank (String.◌∷◌ c s) = is_space (code c) && is_blank s

-- `a || b` on texts: the first that is not empty.
abbrev pub or_else : String → String → String
or_else a b = if a == "" then b else a
