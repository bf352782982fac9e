-- ===== src/Namer/Tests.antt =====
-- Names of a small cluster, and the properties of the Namer at them.
use ingress_gce.Base.{
  ◌≤◌, ◌≡◌, ◌↔◌, refl, true, some, [], ◌++◌, Str, codes, str_eq, has_prefix, contains, split,
  last_of, itoa, length, arith,
}
use ingress_gce.Base.Digits.{atoi, digits_value}
use ingress_gce.Namer.{
  Namer, set_uid, uid, firewall, backend, backend_port, find_port, leading_digits, firewall_rule,
  url_map, neg, is_neg, truncate, decorate_name,
}
use ingress_gce.Namer.Bounds.{firewall_rule-length, url_map-collision}
use ingress_gce.Namer.Ownership.{backend-Owned_iff, Owned}
use ingress_gce.Namer.Neg.{neg_lem}

abbrev namer : Namer
namer = record { cluster_name = codes "uid1"; firewall_name = codes "fw1" }

abbrev other : Namer
other = record { cluster_name = codes "uid2"; firewall_name = [] }

backend_name : backend namer 30080 ≡ codes "k8s-be-30080--uid1"
unfolding backend decorate_name truncate itoa str_eq
backend_name = refl

uid_last_token : uid (set_uid (codes "a--b---c") namer) ≡ codes "-c"
unfolding set_uid uid contains has_prefix split last_of
uid_last_token = refl

port_read : backend_port (codes "x-k8s-be-k8s-be-8080a") ≡ some (codes "8080")
unfolding backend_port find_port has_prefix leading_digits atoi digits_value
port_read = refl

firewall_rule-length_example : (length (firewall_rule namer) ≤ 63) ↔ (length (firewall namer) ≤ 52)
firewall_rule-length_example = firewall_rule-length namer

abbrev head55 : Str
head55 = codes "team-a-frontend-production-europe-west1-blue-green-rele"

url_map-collision_example :
    url_map (head55 ++ codes "ase-one--uid1") ≡ url_map (head55 ++ codes "ase-two--uid1")
url_map-collision_example =
    url_map-collision head55 (codes "ase-one--uid1") (codes "ase-two--uid1") refl (λ e. cc)
      (λ e. cc)

backend-Owned_iff_example : Owned other (backend namer 30080) ↔ (uid other ≡ uid namer)
unfolding uid contains has_prefix
backend-Owned_iff_example = backend-Owned_iff other namer 30080 (omega arith) refl (omega arith)

-- a stand-in for the sum, with 32 hexadecimal digits
abbrev fake_md5 : Str → Str
fake_md5 s = codes "0123456789abcdef0123456789abcdef"

neg_lem_example :
    (s : Str) × (neg fake_md5 namer (codes "default") (codes "web") (codes "80") ≡ some s)
    × (is_neg namer s ≡ true)
    × (length s ≤ 63)
unfolding uid
neg_lem_example =
    neg_lem fake_md5 namer (codes "default") (codes "web") (codes "80") (omega arith) (omega arith)
      (omega arith) (omega arith)
