-- ===== src/Prelude/Text.antt =====
-- Text values: JavaScript's truthiness and `trim`.
use Prim.Native.Char.{Char, code}
use Prim.Native.String.{String}
use mathlib.Core.Path.{◌≡◌, refl}
use mathlib.Core.Bool.{Bool, true, false, ◌&&◌, ◌||◌}
use mathlib.Core.Option.{Option, none, some}
use opod_service_backend.Prelude.Tests.{leb, if◌then◌else◌, ◌==◌ as eqb}
unfoldable pub use text.Mathlib.Text.{◌==◌ as str_eq}
pub use Prim.Native.String.{◌++◌ as append_text}
pub use text.Mathlib.TextEquality.{eq_iff}
pub use text.Mathlib.TextPositions.{eq_refl}

-- The white space and line ends that `trim` removes.
is_space : Char → Bool
is_space c =
    let n = code c in
    (leb 9 n && leb n 13)
    || (eqb n 32)
    || (eqb n 0xa0)
    || (eqb n 0x1680)
    || (leb 0x2000 n && leb n 0x200a)
    || (eqb n 0x2028)
    || (eqb n 0x2029)
    || (eqb n 0x202f)
    || (eqb n 0x205f)
    || (eqb n 0x3000)
    || (eqb n 0xfeff)

trim_start : String → String
unfolding is_space
trim_start String.[] = String.[]
trim_start (String.◌∷◌ c s) = if is_space c then trim_start s else String.◌∷◌ c s

-- A character before a trimmed rest: dropped if it is a space and nothing follows it.
prepend : Char → String → String
unfolding is_space
prepend c String.[] = if is_space c then String.[] else String.◌∷◌ c String.[]
prepend c (String.◌∷◌ d s) = String.◌∷◌ c (String.◌∷◌ d s)

trim_end : String → String
unfolding prepend
trim_end String.[] = String.[]
trim_end (String.◌∷◌ c s) = prepend c (trim_end s)

unfoldable pub trim : String → String
unfolding trim_start trim_end
trim s = trim_end (trim_start s)

-- `Boolean(text)`
abbrev pub non_empty : String → Bool
non_empty String.[] = false
non_empty (String.◌∷◌ c s) = true

abbrev pub has_text : Option String → Bool
has_text none = false
has_text (some s) = non_empty s

trims : trim "  a b\t" ≡ "a b"
unfolding trim
trims = refl
