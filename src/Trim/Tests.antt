-- ===== src/Trim/Tests.antt =====
-- Runs of trimFieldsEvenly, and the properties at concrete fields.
use ingress_gce.Base.{◌≡◌, refl, none, some, List, [], ◌∷◌, Str, codes}
use ingress_gce.Trim.{trim_fields_evenly}

abbrev long_fields : List Str
long_fields = codes "namespace-of-the-team" ∷ codes "name" ∷ codes "8080" ∷ []

-- the table of utils_test.go
cuts_evenly :
    trim_fields_evenly 1 (codes "0123456789" ∷ codes "0123456789" ∷ []) ≡ some (codes "0" ∷ [] ∷ [])
unfolding trim_fields_evenly
cuts_evenly = refl

-- An empty field can get a length of -1, at which the slice panics.
empty_field_panics :
    trim_fields_evenly 30 (codes "01234567890123456789" ∷ codes "012345678901234567890" ∷ [] ∷ [])
    ≡ none
unfolding trim_fields_evenly
empty_field_panics = refl
