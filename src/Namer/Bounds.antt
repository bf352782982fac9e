-- ===== src/Namer/Bounds.antt =====
-- The lengths of the names, against the 63 bytes that GCE allows.
use native.Mathlib.Nat.{pow-suc}
use ingress_gce.Base.{
  ℕ, zero, suc, ◌+◌, ◌*◌, ◌/◌, ◌^◌, ◌≤◌, ◌<◌, ◌≡◌, ◌≢◌, ◌↔◌, refl, ap, Bool, Option, none, some, [],
  ◌∷◌, ◌++◌, Str, codes, str_eq, if◌then◌else◌, to_digits, itoa, length, take, length-append,
  length-take, take-append_exact, ◌∙◌, ◌%◌, lt→ltb, le→ltb, dec_lt, arith,
}
use ingress_gce.Namer.{
  Namer, firewall, truncate, decorate_name, backend, instance_group, firewall_rule,
  firewall_rule_suffix, target_proxy, ssl_cert, forwarding_rule, url_map,
}

-- The two cases of `truncate`.
pub truncate-short : (key : Str) → length key ≤ 62 → truncate key ≡ key
unfolding truncate
truncate-short key h = rw (le→ltb 62 (length key) h)

pub truncate-long : (key : Str) → 62 < length key → truncate key ≡ take 62 key ++ codes "0"
unfolding truncate
truncate-long key h = rw (lt→ltb 62 (length key) h)

length-take_zero : (n : ℕ) (key : Str) → n < length key → length (take n key ++ codes "0") ≡ n + 1
length-take_zero n key h = length-append (take n key) (codes "0") ∙ omega (arith, length-take n key)

length-truncate_long : (key : Str) → 62 < length key → length (truncate key) ≡ 63
length-truncate_long key h = rw (truncate-long key h) (length-take_zero 62 key h)

-- A truncated name has at most 63 bytes.
pub length-truncate : (key : Str) → length (truncate key) ≤ 63
length-truncate key = elim (dec_lt 62 (length key)) [
  | yes h ↦ omega (arith, length-truncate_long key h)
  | no h ↦ rw (truncate-short key (omega arith)) (omega arith)
]

div-lt-of_lt-mul : (n m : ℕ) → n < m * 10 → n / 10 < m
div-lt-of_lt-mul n m h = omega arith

to_digits-length :
    (k f n : ℕ) (acc : Str) → n < 10 ^ suc k → length (to_digits f n acc) ≤ suc k + length acc
unfolding to_digits
to_digits-length k zero n acc h = omega arith
to_digits-length zero (suc f) n acc h = ground arith
to_digits-length (suc k) (suc f) n acc h = ground (
  arith,
  to_digits-length k f (n / 10) ((48 + n % 10) ∷ acc),
  div-lt-of_lt-mul n (10 ^ suc k) (rw (← pow-suc 10 (suc k)) h),
)

-- An `int64` port takes at most 19 digits.
pub length-itoa : (n : ℕ) → n < 2 ^ 63 → length (itoa n) ≤ 19
unfolding itoa
length-itoa n h = to_digits-length 18 (suc n) n [] (omega arith)

length-pos : (a : Str) → a ≢ [] → 0 < length a
length-pos [] h = absurd (h refl)
length-pos (c ∷ a) h = omega arith

-- Names that go on after 62 bytes are cut to the same name if those bytes are the same.
truncate-common :
    (c a b : Str) → length c ≡ 62 → a ≢ [] → b ≢ [] → truncate (c ++ a) ≡ truncate (c ++ b)
truncate-common c a b h na nb = rw (
  truncate-long (c ++ a) (omega (arith, length-append c a, length-pos a na)),
  truncate-long (c ++ b) (omega (arith, length-append c b, length-pos b nb)),
  take-append_exact 62 c a h,
  take-append_exact 62 c b h,
)

-- Load balancer names that share their first 55 bytes and are longer share one url map.
pub url_map-collision :
    (head a b : Str)
    → length head ≡ 55
    → a ≢ []
    → b ≢ []
    → url_map (head ++ a) ≡ url_map (head ++ b)
unfolding url_map
url_map-collision head a b h na nb =
    truncate-common (codes "k8s-um-" ++ head) a b (omega arith) na nb

abbrev suffix_of : Str → Str
suffix_of f = if str_eq f [] then codes "l7" else truncate (codes "l7--" ++ f)

length-suffix_of : (f : Str) → (length (suffix_of f) ≤ 56) ↔ (length f ≤ 52)
unfolding str_eq
length-suffix_of [] = (λ _. omega arith, λ _. omega arith)
length-suffix_of (c ∷ f) = elim (dec_lt 57 (length f)) [
  | yes h ↦
      let e : length (suffix_of (c ∷ f)) ≡ 63 =
        length-truncate_long (codes "l7--" ++ c ∷ f) (omega arith) in
      (λ p. omega (arith, e), λ p. omega (arith, e))
  | no h ↦
      let e : length (suffix_of (c ∷ f)) ≡ 5 + length f =
        ap length (truncate-short (codes "l7--" ++ c ∷ f) (omega arith)) ∙ omega arith in
      (λ p. omega (arith, e), λ p. omega (arith, e))
]

-- The firewall rule's name has at most 63 bytes exactly when the firewall's name has at most 52.
pub firewall_rule-length :
    (n : Namer) → (length (firewall_rule n) ≤ 63) ↔ (length (firewall n) ≤ 52)
unfolding firewall_rule firewall_rule_suffix
firewall_rule-length n =
    let (there, back) = length-suffix_of (firewall n) in
    (λ h. there (omega arith), λ h. omega (arith, back h))

-- The names of the load balancer's resources that are given a protocol
abbrev pub AtMost : ℕ → Option Str → Type 0
AtMost k none = Unit
AtMost k (some s) = length s ≤ k

-- Each name of a load balancer's resources has at most 63 bytes, whatever the load balancer's name.
pub load_balancer_bounds :
    (lb_name protocol : Str) (is_primary : Bool)
    → AtMost 63 (target_proxy lb_name protocol)
      × AtMost 63 (forwarding_rule lb_name protocol)
      × (length (ssl_cert lb_name is_primary) ≤ 63)
      × (length (url_map lb_name) ≤ 63)
unfolding target_proxy forwarding_rule ssl_cert url_map
load_balancer_bounds lb_name protocol is_primary = ground (
  arith,
  length-truncate (codes "k8s-tp-" ++ lb_name),
  length-truncate (codes "k8s-tps-" ++ lb_name),
  length-truncate (codes "k8s-fw-" ++ lb_name),
  length-truncate (codes "k8s-fws-" ++ lb_name),
  length-truncate (codes "k8s-ssl-" ++ lb_name),
  length-truncate (codes "k8s-ssl-1-" ++ lb_name),
  length-truncate (codes "k8s-um-" ++ lb_name),
)

length-decorate : (n : Namer) (name : Str) → length name ≤ 63 → length (decorate_name n name) ≤ 63
unfolding decorate_name
length-decorate n name h = ground (arith, length-truncate (name ++ (codes "--" ++ n.cluster_name)))

-- The cluster's own names, of a backend at any port and of the instance group, fit as well.
pub cluster_bounds :
    (n : Namer) (port : ℕ)
    → port < 2 ^ 63
    → (length (backend n port) ≤ 63) × (length (instance_group n) ≤ 63)
unfolding backend instance_group
cluster_bounds n port h = (
  length-decorate n (codes "k8s-be-" ++ itoa port) (omega (arith, length-itoa port h)),
  length-decorate n (codes "k8s-ig") (omega arith),
)
