-- ===== src/Text/Literals.antt =====
-- The bytes of the literals of examples/memcached/server, which are ASCII.
use Prim.Native.Nat.{ℕ}
use Prim.Native.Char.{code}
use Prim.Native.String.{String, [], ◌∷◌}
use mathlib.Core.List

abbrev pub bytes : String → List.List ℕ
bytes [] = List.[]
bytes (c ∷ s) = List.◌∷◌ (code c) (bytes s)
