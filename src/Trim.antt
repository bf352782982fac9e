-- ===== src/Trim.antt =====
-- trimFieldsEvenly of pkg/utils/utils.go. A result of `none` is a panic of the Go program: an index
-- or a slice bound out of range.
pub mod Sums
pub mod Laws
mod Tests
use ingress_gce.Base.{
  ℕ, zero, suc, ◌+◌, ◌-◌, ◌*◌, ◌/◌, Option, none, some, List, [], ◌∷◌, map, Str, length, take, leb,
  ltb, if◌then◌else◌,
}
use ingress_gce.Base.Int.{ℤ, pos, negsuc, ◌+ℤ◌, ◌-ℤ◌, pos_part}
use ingress_gce.Base.Options.{◌>>=◌}

-- sum of len(s) over the fields
unfoldable pub total_length : List Str → ℕ
total_length [] = 0
total_length (s ∷ fields) = length s + total_length fields

-- len(s) - len(s)*excess/total - 1, which is -1 for an empty field
unfoldable pub trimmed_length : ℕ → ℕ → Str → ℤ
trimmed_length excess total s = pos (length s) -ℤ pos (length s * excess / total) -ℤ pos 1

-- remaining -= l, for each length
unfoldable pub subtract_all : ℤ → List ℤ → ℤ
subtract_all remaining [] = remaining
subtract_all remaining (l ∷ lengths) = subtract_all (remaining -ℤ l) lengths

-- for i := 0; i < remaining; i++ { lengths[i]++ }
unfoldable pub increment_first : ℕ → List ℤ → Option (List ℤ)
increment_first zero lengths = some lengths
increment_first (suc k) [] = none
increment_first (suc k) (l ∷ lengths) = (do
  ls ← increment_first k lengths
  some ((l +ℤ pos 1) ∷ ls))

-- s[:l]
unfoldable pub slice_to : Str → ℤ → Option Str
slice_to s (pos l) = if leb l (length s) then some (take l s) else none
slice_to s (negsuc l) = none

-- ret = append(ret, fields[i][:l]), for each length
unfoldable pub slice_all : List Str → List ℤ → Option (List Str)
slice_all fields [] = some []
slice_all [] (l ∷ lengths) = none
slice_all (s ∷ fields) (l ∷ lengths) = do
  t ← slice_to s l
  ts ← slice_all fields lengths
  some (t ∷ ts)

-- A `max` of 0 or less is 0 here: the only caller passes 30.
unfoldable pub trim_fields_evenly : ℕ → List Str → Option (List Str)
unfolding total_length trimmed_length subtract_all increment_first slice_to slice_all
trim_fields_evenly max fields =
    let total = total_length fields in
    let excess = total - max in
    let lengths = map (trimmed_length excess total) fields in
    let remaining = subtract_all (pos max) lengths in
    if leb max 0
    then some fields
    else if leb total max
    then some fields
    else (do ls ← increment_first (pos_part remaining) lengths; slice_all fields ls)
