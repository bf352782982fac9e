-- ===== src/Neg/Endpoint.antt =====
-- Network endpoints and their encoding as one string: encodeEndpoint, decodeEndpoint and the body of
-- toNetworkEndpointBatch in pkg/networkendpointgroup/syncer.go.
pub mod Codec
use ingress_gce.Base.{
  ℕ, suc, Bool, ◌&&◌, List, [], ◌∷◌, ◌++◌, Str, codes, split, last_of, itoa, Result, ok, err, panic,
  plain, str_eq, ◌==◌, if◌then◌else◌,
}
use ingress_gce.Base.Int.{ℤ, pos, negsuc}
use ingress_gce.Base.Digits.{atoi}
use ingress_gce.Base.Outcome.{◌>>=◌}

pub record NetworkEndpoint : Type 0 where
  pub instance_name : Str
  pub ip_address : Str
  pub port : ℤ

-- strconv.FormatInt(n, 10)
unfoldable pub format_int : ℤ → Str
format_int (pos n) = itoa n
format_int (negsuc n) = codes "-" ++ itoa (suc n)

unfoldable pub encode_endpoint : Str → Str → Str → Str
encode_endpoint ip instance_name port =
    ip ++ (codes "||" ++ (instance_name ++ (codes "||" ++ port)))

-- strs[0], strs[1], strs[2]: an index out of range panics.
first_three : List Str → Result (Str × Str × Str)
first_three (a ∷ b ∷ c ∷ r) = ok (a, b, c)
first_three (a ∷ b ∷ []) = panic
first_three (a ∷ []) = panic
first_three [] = panic

unfoldable pub decode_endpoint : Str → Result (Str × Str × Str)
unfolding first_three
decode_endpoint s = first_three (split s (codes "||"))

-- The conversion of one encoded endpoint in toNetworkEndpointBatch.
unfoldable pub to_network_endpoint : Str → Result NetworkEndpoint
to_network_endpoint enc = do parts ← decode_endpoint enc; port_of parts
  where
    port_of : Str × Str × Str → Result NetworkEndpoint
    port_of (ip, instance_name, port) =
        let (v, good) = atoi port in
        if good
        then ok (record { instance_name = instance_name; ip_address = ip; port = v })
        else err (plain (codes "Failed to decode endpoint"))

unfoldable pub retrieve_name : Str → Str
retrieve_name url = last_of (split url (codes "/"))
