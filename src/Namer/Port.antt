-- ===== src/Namer/Port.antt =====
-- BackendPort reads the port back out of a backend's name, also out of one that was cut.
use ingress_gce.Base.{
  ℕ, zero, suc, ◌-◌, ◌^◌, ◌≤◌, ◌<◌, ◌≡◌, ◌≢◌, refl, ap, sym, false, Bool-cases, inl, inr, some, [],
  ◌∷◌, ◌++◌, Str, codes, str_eq, has_prefix, itoa, length, take, All, dec_lt, ◌∙◌, arith,
  append-nil,
}
use ingress_gce.Base.Digits.{
  IsDigit, is_digit, itoa-IsDigit, itoa-ne-nil, value-itoa, digits_value, atoi-itoa,
}
use ingress_gce.Base.Options.{◌>>=◌}
use ingress_gce.Namer.{Namer, decorate_name, backend, leading_digits, find_port, backend_port}
use ingress_gce.Namer.Bounds.{truncate-short, truncate-long, length-itoa}

-- A text that does not go on with a digit.
abbrev NoDigit : Str → Type 0
NoDigit [] = Unit
NoDigit (c ∷ s) = is_digit c ≡ false

-- A backend's name is its prefix, the port and a rest that does not start with a digit.
record Shape (n : Namer) (port : ℕ) : Type 0 where
  rest : Str
  form : backend n port ≡ codes "k8s-be-" ++ (itoa port ++ rest)
  ends : NoDigit rest

cut_form :
    (n : ℕ) (p : Str) (c : ℕ) (v z : Str)
    → length p ≤ n
    → take (suc n) (p ++ (c ∷ v)) ++ z ≡ p ++ (c ∷ (take (n - length p) v ++ z))
cut_form n [] c v z h = ap (λ k. c ∷ (take k v ++ z)) {x = n} {y = n - 0} (omega arith)
cut_form zero (x ∷ p) c v z h = absurd (omega arith)
cut_form (suc n) (x ∷ p) c v z h =
    ap (λ s. x ∷ s)
      (cut_form n p c v z (omega arith)
        ∙ ap (λ k. p ++ (c ∷ (take k v ++ z))) {x = n - length p} {y = suc n - suc (length p)}
            (omega arith))

backend-Shape : (n : Namer) (port : ℕ) → port < 2 ^ 63 → Shape n port
unfolding backend decorate_name
backend-Shape n port h =
    let p = codes "k8s-be-" ++ itoa port in
    let u = n.cluster_name in
    elim (Bool-cases (str_eq u [])) [
      | inl e ↦ record { rest = []; form = rw (e, append-nil) refl; ends = tt }
      | inr e ↦ elim (dec_lt 62 (length (p ++ (codes "--" ++ u)))) [
        | yes long ↦ record {
          rest = b'-' ∷ (take (61 - length p) (b'-' ∷ u) ++ codes "0");
          form = rw e (
              truncate-long (p ++ (codes "--" ++ u)) long
              ∙ cut_form 61 p b'-' (b'-' ∷ u) (codes "0") (omega (arith, length-itoa port h)));
          ends = refl;
        }
        | no short ↦ record {
          rest = codes "--" ++ u;
          form = rw e (truncate-short (p ++ (codes "--" ++ u)) (omega arith));
          ends = refl;
        }
      ]
    ]

leading_digits-append :
    (ds rest : Str) → All IsDigit ds → NoDigit rest → leading_digits (ds ++ rest) ≡ ds
unfolding leading_digits
leading_digits-append [] [] d r = refl
leading_digits-append [] (c ∷ rest) d r = rw r
leading_digits-append (c ∷ ds) rest d r = rw (d.0, leading_digits-append ds rest d.1 r)

find_port-found :
    (s : Str) (d : ℕ) (ds : Str)
    → leading_digits s ≡ d ∷ ds
    → find_port (codes "k8s-be-" ++ s) ≡ some (d ∷ ds)
unfolding find_port has_prefix
find_port-found s d ds h = rw (h, find_port)

-- The text is not empty, so a match is found.
find_port-digits :
    (s ds : Str) → ds ≢ [] → leading_digits s ≡ ds → find_port (codes "k8s-be-" ++ s) ≡ some ds
find_port-digits s [] n h = absurd (n refl)
find_port-digits s (d ∷ ds) n h = find_port-found s d ds h

find_port-backend :
    (n : Namer) (port : ℕ) → port < 2 ^ 63 → find_port (backend n port) ≡ some (itoa port)
find_port-backend n port h =
    let s = backend-Shape n port h in
    rw s.form (
      find_port-digits (itoa port ++ s.rest) (itoa port) (itoa-ne-nil port)
        (leading_digits-append (itoa port) s.rest (itoa-IsDigit port) s.ends))

-- BackendPort gives back the port that a backend's name was made from, also where the name was cut.
pub backend_port-backend :
    (n : Namer) (port : ℕ) → port < 2 ^ 63 → backend_port (backend n port) ≡ some (itoa port)
unfolding backend_port
backend_port-backend n port h = rw (find_port-backend n port h, ◌>>=◌, atoi-itoa port h)

-- So two ports never share a backend's name, whatever the clusters.
pub backend-injective :
    (m n : Namer) (p q : ℕ) → p < 2 ^ 63 → q < 2 ^ 63 → backend m p ≡ backend n q → p ≡ q
backend-injective m n p q hp hq e =
    let same : some (itoa p) ≡ some (itoa q) =
      sym (backend_port-backend m p hp) ∙ (ap backend_port e ∙ backend_port-backend n q hq) in
    let digits : itoa p ≡ itoa q = cc same in
    sym (value-itoa p) ∙ (ap (digits_value 0) digits ∙ value-itoa q)
