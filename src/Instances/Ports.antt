-- ===== src/Instances/Ports.antt =====
-- The named ports that ensureInstanceGroupAndPorts sets.
use ingress_gce.Base.{
  ℕ, ◌≡◌, refl, ap, Bool, true, false, ◌&&◌, ◌||◌, not, List, [], ◌∷◌, ◌++◌, ◌==◌, arith,
  Bool-cases, inl, inr,
}
use ingress_gce.Instances.{NamedPort}
use ingress_gce.Instances.Groups.{has_port, new_named_ports}

pub among : List ℕ → ℕ → Bool
among [] p = false
among (q ∷ ports) p = q == p || among ports p

has_port-append :
    (xs ys : List NamedPort) (p : ℕ) → has_port (xs ++ ys) p ≡ (has_port xs p || has_port ys p)
unfolding has_port
has_port-append [] ys p = refl
has_port-append (x ∷ xs) ys p = ground (arith, has_port-append xs ys p)

has_port-same : (xs : List NamedPort) (p q : ℕ) → (p == q) ≡ true → has_port xs p ≡ has_port xs q
has_port-same xs p q h = ap (has_port xs) {x = p} {y = q} (ground arith)

has_port-new :
    (existing : List NamedPort) (ports : List ℕ) (p : ℕ)
    → has_port (new_named_ports existing ports) p ≡ (among ports p && not (has_port existing p))
unfolding among new_named_ports has_port
has_port-new existing [] p = refl
has_port-new existing (q ∷ ports) p = elim (Bool-cases (q == p)) [
  | inl e ↦ ground (arith, has_port-new existing ports p, has_port-same existing q p e, e)
  | inr e ↦ ground (arith, has_port-new existing ports p, e)
]

-- The ports that are set are those of the group and the wanted ones, and no port of the group is added
-- again.
pub new_named_ports_lem :
    (existing : List NamedPort) (ports : List ℕ) (p : ℕ)
    → (has_port (existing ++ new_named_ports existing ports) p
        ≡ (has_port existing p || among ports p))
      × (has_port existing p ≡ true → has_port (new_named_ports existing ports) p ≡ false)
new_named_ports_lem existing ports p =
    let new = has_port-new existing ports p in
    (
      ground (arith, has_port-append existing (new_named_ports existing ports) p, new),
      λ h. ground (arith, new, h),
    )
