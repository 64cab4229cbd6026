-- ===== src/Base/Trim.antt =====
-- `strings.TrimSpace` on a text that is trimmed.
use Prim.Native.String.{String, [], ◌∷◌}
use mathlib.Core.Path.{◌≡◌, refl, ap, ◌∙◌}
use native.Mathlib.Omega.{arith}
use dbx_plugin_kafka.Base.Strings.{trim_left, trim_right, trim_space}

trim_right_twice : (s : String) → trim_right (trim_right s) ≡ trim_right s
unfolding trim_right
trim_right_twice [] = refl
trim_right_twice (c ∷ s) = ground (arith, trim_right_twice s)

trim_left_cut : (s : String) → trim_left (trim_right (trim_left s)) ≡ trim_right (trim_left s)
unfolding trim_left trim_right
trim_left_cut [] = refl
trim_left_cut (c ∷ s) = ground (arith, trim_left_cut s)

pub trim_space_twice : (s : String) → trim_space (trim_space s) ≡ trim_space s
unfolding trim_space
trim_space_twice s = ap trim_right (trim_left_cut s) ∙ trim_right_twice (trim_left s)
