-- ===== src/Trim/Laws.antt =====
-- What trimFieldsEvenly promises: a full use of the room, and a prefix of every field.
use ingress_gce.Base.{
  ℕ, zero, suc, ◌+◌, ◌-◌, ◌≤◌, ◌<◌, ◌≡◌, refl, true, some, List, [], ◌∷◌, map, Str, length, take,
  length-take, has_prefix, All, arith,
}
use ingress_gce.Base.Int.{pos}
use ingress_gce.Base.Options.{◌>>=◌}
use ingress_gce.Trim.{
  total_length, trimmed_length, subtract_all, increment_first, slice_to, slice_all,
  trim_fields_evenly,
}
use ingress_gce.Trim.Sums.{
  keeps, sum, IsNonempty, cut-lt, lengths-eq, sum-keeps, subtract_all-pos, sum_cut_bounds,
}

-- A result has one prefix for each field.
abbrev pub Prefixes : List Str → List Str → Type 0
Prefixes [] [] = Unit
Prefixes [] (s ∷ ss) = ⊥
Prefixes (t ∷ ts) [] = ⊥
Prefixes (t ∷ ts) (s ∷ ss) = (has_prefix t s ≡ true) × Prefixes ts ss

-- The lengths are cuts that the fields allow.
abbrev Fits : List ℕ → List Str → Type 0
Fits [] [] = Unit
Fits [] (s ∷ ss) = ⊥
Fits (n ∷ ns) [] = ⊥
Fits (n ∷ ns) (s ∷ ss) = (n ≤ length s) × Fits ns ss

-- The lengths are cuts that leave a byte of every field.
abbrev FitsBelow : List ℕ → List Str → Type 0
FitsBelow [] [] = Unit
FitsBelow [] (s ∷ ss) = ⊥
FitsBelow (n ∷ ns) [] = ⊥
FitsBelow (n ∷ ns) (s ∷ ss) = (n < length s) × FitsBelow ns ss

keeps-FitsBelow :
    (e t : ℕ) (fields : List Str)
    → All IsNonempty fields
    → e < t
    → FitsBelow (keeps e t fields) fields
unfolding keeps
keeps-FitsBelow e t [] n h = tt
keeps-FitsBelow e t (s ∷ fields) n h =
    (omega (arith, cut-lt e t s n.0 h), keeps-FitsBelow e t fields n.1 h)

Fits-of_below : (ns : List ℕ) (fields : List Str) → FitsBelow ns fields → Fits ns fields
Fits-of_below [] [] h = tt
Fits-of_below [] (s ∷ ss) h = h
Fits-of_below (n ∷ ns) [] h = h
Fits-of_below (n ∷ ns) (s ∷ ss) h = (omega arith, Fits-of_below ns ss h.1)

-- Raising the first `k` lengths raises their sum by `k`.
increment_first_lem :
    (k : ℕ) (ns : List ℕ) (fields : List Str)
    → FitsBelow ns fields
    → k ≤ length fields
    → (ms : List ℕ) × (increment_first k (map pos ns) ≡ some (map pos ms))
      × (sum ms ≡ sum ns + k)
      × Fits ms fields
unfolding increment_first
increment_first_lem zero ns fields f h = (ns, refl, omega arith, Fits-of_below ns fields f)
increment_first_lem (suc k) [] [] f h = absurd (omega arith)
increment_first_lem (suc k) [] (s ∷ ss) f h = absurd f
increment_first_lem (suc k) (n ∷ ns) [] f h = absurd f
increment_first_lem (suc k) (n ∷ ns) (s ∷ ss) f h =
    let (ms, e, total, fits) = increment_first_lem k ns ss f.1 (omega arith) in
    ((n + 1) ∷ ms, rw (e, ◌>>=◌) (ground arith), omega (arith, total), (omega (arith, f.0), fits))

has_prefix-take : (n : ℕ) (s : Str) → has_prefix (take n s) s ≡ true
unfolding has_prefix
has_prefix-take zero s = refl
has_prefix-take (suc n) [] = refl
has_prefix-take (suc n) (c ∷ s) = ground (arith, has_prefix-take n s)

slice_all_lem :
    (ns : List ℕ) (fields : List Str)
    → Fits ns fields
    → (ret : List Str) × (slice_all fields (map pos ns) ≡ some ret)
      × (total_length ret ≡ sum ns)
      × Prefixes ret fields
unfolding slice_all slice_to total_length
slice_all_lem [] [] f = ([], refl, refl, tt)
slice_all_lem [] (s ∷ ss) f = absurd f
slice_all_lem (n ∷ ns) [] f = absurd f
slice_all_lem (n ∷ ns) (s ∷ ss) f =
    let (ret, e, total, p) = slice_all_lem ns ss f.1 in
    (
      take n s ∷ ret,
      ground (arith, e),
      omega (arith, total, length-take n s),
      (has_prefix-take n s, p),
    )

length-pos : (m : ℕ) (fields : List Str) → m < total_length fields → 1 ≤ length fields
unfolding total_length
length-pos m [] h = absurd (omega arith)
length-pos m (s ∷ ss) h = omega arith

-- The loops of the function, each given its result.
trim-steps :
    (m : ℕ) (fields : List Str) (ks ms : List ℕ) (ret : List Str)
    → 0 < m
    → m < total_length fields
    → map (trimmed_length (total_length fields - m) (total_length fields)) fields ≡ map pos ks
    → subtract_all (pos m) (map pos ks) ≡ pos (m - sum ks)
    → increment_first (m - sum ks) (map pos ks) ≡ some (map pos ms)
    → slice_all fields (map pos ms) ≡ some ret
    → trim_fields_evenly m fields ≡ some ret
unfolding trim_fields_evenly
trim-steps m fields ks ms ret p h lengths left raised cut =
    rw (lengths, left, raised, cut) (ground arith)

-- Fields that together are too long, and none of them empty, are cut to prefixes that use the
-- whole room: nothing panics, and the lengths of the results add up to exactly `max`.
pub trim-fills :
    (m : ℕ) (fields : List Str)
    → 0 < m
    → m < total_length fields
    → All IsNonempty fields
    → (ret : List Str) × (trim_fields_evenly m fields ≡ some ret)
      × (total_length ret ≡ m)
      × Prefixes ret fields
trim-fills m fields p h n =
    let t = total_length fields in
    let e = t - m in
    let ks = keeps e t fields in
    let total = sum-keeps e t fields n (omega arith) in
    let some_field = length-pos m fields h in
    let room = sum_cut_bounds m fields some_field h in
    let (ms, raised, sum_ms, fits) =
      increment_first_lem (m - sum ks) ks fields (keeps-FitsBelow e t fields n (omega arith))
        (omega (arith, total, room)) in
    let (ret, cut, sum_ret, prefixes) = slice_all_lem ms fields fits in
    (
      ret,
      trim-steps m fields ks ms ret p h (lengths-eq e t fields n (omega arith))
          (subtract_all-pos m ks (omega (arith, total, room))) raised cut,
      omega (arith, total, room, sum_ms, sum_ret),
      prefixes,
    )

-- Fields that fit are returned as they are.
pub trim-short :
    (m : ℕ) (fields : List Str)
    → total_length fields ≤ m
    → trim_fields_evenly m fields ≡ some fields
unfolding trim_fields_evenly
trim-short m fields h = ground arith
