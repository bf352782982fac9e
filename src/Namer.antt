-- ===== src/Namer.antt =====
-- The Namer of pkg/utils/namer.go. A Go string is the list of its bytes, a port a number that is not
-- negative. The lock of the struct is not modelled: each method is one step.
pub mod Bounds
pub mod Ownership
pub mod Port
pub mod Neg
mod Tests
use Prim.Native.String
use mathlib.Core.List.{foldl}
use ingress_gce.Base.{
  ℕ, zero, suc, ◌+◌, ◌*◌, ◌-◌, ◌^◌, Bool, true, false, ◌&&◌, not, Option, none, some, List, [], ◌∷◌,
  ◌++◌, Str, codes, str_eq, has_prefix, contains, split, last_of, itoa, length, take, drop, ltb,
  leb, ◌||◌, ◌==◌, if◌then◌else◌,
}
use ingress_gce.Base.Digits.{is_digit, atoi}
use ingress_gce.Base.Options.{◌>>=◌}
use ingress_gce.Trim.{trim_fields_evenly}

abbrev pub cluster_name_delimiter : Str
cluster_name_delimiter = codes "--"

abbrev pub backend_prefix : Str
backend_prefix = codes "k8s-be"

abbrev pub name_len_limit : ℕ
name_len_limit = 62

abbrev pub max_neg_descriptive_label : ℕ
max_neg_descriptive_label = 30

pub record Namer : Type 0 where
  pub cluster_name : Str
  pub firewall_name : Str

pub record NameComponents : Type 0 where
  pub cluster : Str
  pub resource : Str
  pub metadata : Str

unfoldable pub set_uid : Str → Namer → Namer
set_uid name n = record n {
  cluster_name =
      if contains cluster_name_delimiter name
      then last_of (split name cluster_name_delimiter)
      else name;
}

unfoldable pub set_firewall : Str → Namer → Namer
set_firewall name n = if str_eq n.firewall_name name then n else record n { firewall_name = name }

unfoldable pub new_namer : Str → Str → Namer
unfolding set_uid set_firewall
new_namer cluster firewall =
    set_firewall firewall (set_uid cluster (record { cluster_name = []; firewall_name = [] }))

unfoldable pub uid : Namer → Str
uid n = n.cluster_name

unfoldable pub firewall : Namer → Str
firewall n = if str_eq n.firewall_name [] then n.cluster_name else n.firewall_name

unfoldable pub truncate : Str → Str
truncate key = if ltb name_len_limit (length key) then take name_len_limit key ++ codes "0" else key

unfoldable pub decorate_name : Namer → Str → Str
unfolding uid
decorate_name n name =
    if str_eq (uid n) [] then name else truncate (name ++ (cluster_name_delimiter ++ uid n))

-- c[1] of a split, if it has two parts
pub second_of : List Str → Str
second_of [] = []
second_of (s ∷ []) = []
second_of (s ∷ t ∷ ts) = t

-- l[len(l)-1] of a split, if it has two parts
pub last_of_several : List Str → Str
unfolding last_of
last_of_several [] = []
last_of_several (s ∷ []) = []
last_of_several (s ∷ t ∷ ts) = last_of (t ∷ ts)

unfoldable pub parse_name : Str → NameComponents
unfolding second_of last_of_several
parse_name name = record {
  cluster = last_of_several (split name cluster_name_delimiter);
  resource = second_of (split name (codes "-"));
  metadata = [];
}

-- The tests of NameBelongsToCluster on the parts of the name.
pub parts_belong : Str → List Str → Bool
parts_belong cluster [] = false
parts_belong cluster (s ∷ []) = str_eq cluster []
parts_belong cluster (s ∷ t ∷ []) = str_eq t cluster
parts_belong cluster (s ∷ t ∷ u ∷ ts) = false

unfoldable pub name_belongs_to_cluster : Namer → Str → Bool
unfolding parts_belong uid
name_belongs_to_cluster n name =
    if not (has_prefix (codes "k8s-") name)
    then false
    else parts_belong (uid n) (split name cluster_name_delimiter)

unfoldable pub backend : Namer → ℕ → Str
backend n port = decorate_name n (backend_prefix ++ (codes "-" ++ itoa port))

-- the longest run of digits at the start, which ([0-9]+) takes
unfoldable pub leading_digits : Str → Str
leading_digits [] = []
leading_digits (c ∷ s) = let rest = leading_digits s in if is_digit c then c ∷ rest else []

-- The regular expression k8s-be-([0-9]+).* finds its leftmost match; the result is its group.
unfoldable pub find_port : Str → Option Str
find_port [] = none
find_port (c ∷ s) = elim (has_prefix (backend_prefix ++ codes "-") (c ∷ s)) [
  | true ↦ elim (leading_digits (drop 7 (c ∷ s))) [ [] ↦ find_port s | d ∷ ds ↦ some (d ∷ ds) ]
  | false ↦ find_port s
]

-- The errors of the function are `none`; their text is not modelled.
unfoldable pub backend_port : Str → Option Str
backend_port be_name = do digits ← find_port be_name; if (atoi digits).1 then some digits else none

unfoldable pub instance_group : Namer → Str
instance_group n = decorate_name n (codes "k8s-ig")

pub firewall_rule_suffix : Namer → Str
firewall_rule_suffix n =
    if str_eq (firewall n) []
    then codes "l7"
    else truncate (codes "l7" ++ (cluster_name_delimiter ++ firewall n))

unfoldable pub firewall_rule : Namer → Str
firewall_rule n = codes "k8s-fw-" ++ firewall_rule_suffix n

-- strings.Replace(key, "/", "-", -1)
pub scrub : Str → Str
scrub [] = []
scrub (c ∷ s) = (if c == b'/' then b'-' else c) ∷ scrub s

unfoldable pub load_balancer : Namer → Str → Str
unfolding scrub uid
load_balancer n key =
    if str_eq (uid n) [] || str_eq (last_of (split key cluster_name_delimiter)) (uid n)
    then scrub key
    else truncate (scrub key ++ (cluster_name_delimiter ++ uid n))

-- A protocol that is neither of the two ends the program, `none`.
unfoldable pub target_proxy : Str → Str → Option Str
target_proxy lb_name protocol =
    if str_eq protocol (codes "HTTP")
    then some (truncate (codes "k8s-tp-" ++ lb_name))
    else if str_eq protocol (codes "HTTPS")
    then some (truncate (codes "k8s-tps-" ++ lb_name))
    else none

unfoldable pub is_ssl_cert : Str → Bool
is_ssl_cert name = has_prefix (codes "k8s-ssl") name

unfoldable pub ssl_cert : Str → Bool → Str
ssl_cert lb_name is_primary =
    if is_primary
    then truncate (codes "k8s-ssl-" ++ lb_name)
    else truncate (codes "k8s-ssl-1-" ++ lb_name)

unfoldable pub forwarding_rule : Str → Str → Option Str
forwarding_rule lb_name protocol =
    if str_eq protocol (codes "HTTP")
    then some (truncate (codes "k8s-fw-" ++ lb_name))
    else if str_eq protocol (codes "HTTPS")
    then some (truncate (codes "k8s-fws-" ++ lb_name))
    else none

unfoldable pub url_map : Str → Str
url_map lb_name = truncate (codes "k8s-um-" ++ lb_name)

unfoldable pub named_port : ℕ → Str
named_port port = codes "port" ++ itoa port

unfoldable pub neg_prefix : Namer → Str
unfolding uid
neg_prefix n = codes "k8s1-" ++ uid n

unfoldable pub is_neg : Namer → Str → Bool
unfolding neg_prefix
is_neg n name = has_prefix (neg_prefix n) name

-- `md5_hex` is the lower-case hexadecimal text of crypto/md5's sum, a parameter.
module _ (md5_hex : Str → Str) where
  unfoldable pub neg_suffix : Str → Str → Str → Str
  neg_suffix namespace name port = take 8 (md5_hex (namespace ++ name ++ port))

  -- trimmedFields[0], [1] and [2]; a list of another length is an index out of range, `none`.
  unfoldable pub neg_of : Namer → Str → List Str → Option Str
  neg_of n suffix (namespace ∷ name ∷ port ∷ []) = some (
      neg_prefix n
      ++ (codes "-"
          ++ (namespace
              ++ (codes "-" ++ (name ++ (codes "-" ++ (port ++ (codes "-" ++ suffix))))))))
  neg_of n suffix _ = none

  unfoldable pub neg : Namer → Str → Str → Str → Option Str
  neg n namespace name port = do
    fields ← trim_fields_evenly max_neg_descriptive_label (namespace ∷ name ∷ port ∷ [])
    neg_of n (neg_suffix namespace name port) fields
