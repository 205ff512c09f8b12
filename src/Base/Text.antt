-- ===== src/Base/Text.antt =====
-- Text literals as the bytes of their characters; every literal of the library is ASCII.
use Prim.Native.Char.{code}
use Prim.Native.String.{String}
use mathlib.Core.List.{[], ◌∷◌}
use simple_leveldb.Base.Lists.{Bytes}

abbrev pub codes : String → Bytes
codes String.[] = []
codes (String.◌∷◌ c s) = code c ∷ codes s
