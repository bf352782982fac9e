-- ===== src/Neg/Endpoint/Codec.antt =====
-- Decoding undoes encoding.
use ingress_gce.Base.{
  ℕ, ◌^◌, ◌<◌, ◌≡◌, refl, ap, sym, subst, true, ◌++◌, Str, codes, split, itoa, ok, ◌∙◌,
}
use ingress_gce.Base.Int.{pos}
use ingress_gce.Base.Outcome.{◌>>=◌, ok-injective}
use ingress_gce.Base.Split.{is_safe, split-join, split-of_free, IsFree, is_safe-IsFree}
use ingress_gce.Base.Digits.{itoa-IsDigit, atoi-itoa, is_safe-digits}
use ingress_gce.Neg.Endpoint.{
  NetworkEndpoint, format_int, encode_endpoint, decode_endpoint, to_network_endpoint,
}

-- An endpoint whose texts do not run into the separator, with a port that an int holds.
pub record IsEncodable (e : NetworkEndpoint) : Type 0 where
  pub ip : is_safe b'|' e.ip_address ≡ true
  pub instance_safe : is_safe b'|' e.instance_name ≡ true
  pub number : ℕ
  pub is_port : e.port ≡ pos number
  pub small : number < 2 ^ 63

abbrev pub encode : NetworkEndpoint → Str
encode e = encode_endpoint e.ip_address e.instance_name (format_int e.port)

-- What encodeEndpoint joins, decodeEndpoint takes apart.
pub decode-encode :
    (ip instance_name port : Str)
    → is_safe b'|' ip ≡ true
    → is_safe b'|' instance_name ≡ true
    → IsFree (codes "||") port
    → decode_endpoint (encode_endpoint ip instance_name port) ≡ ok (ip, instance_name, port)
unfolding decode_endpoint encode_endpoint split
decode-encode ip instance_name port h1 h2 h3 = rw (
  split-join b'|' ip (instance_name ++ (codes "||" ++ port)) h1,
  split-join b'|' instance_name port h2,
  split-of_free (codes "||") port h3,
)

to_network_endpoint-parts :
    (ip instance_name : Str) (n : ℕ)
    → is_safe b'|' ip ≡ true
    → is_safe b'|' instance_name ≡ true
    → n < 2 ^ 63
    → to_network_endpoint (encode_endpoint ip instance_name (itoa n))
      ≡ ok (record { instance_name = instance_name; ip_address = ip; port = pos n })
unfolding to_network_endpoint
to_network_endpoint-parts ip instance_name n h1 h2 h = rw (
  decode-encode ip instance_name (itoa n) h1 h2
      (is_safe-IsFree b'|' (itoa n) (is_safe-digits b'|' (itoa n) refl (itoa-IsDigit n))),
  ◌>>=◌,
  atoi-itoa n h,
)

-- An endpoint that is encoded comes back from a batch as it was.
pub to_network_endpoint-encode :
    (e : NetworkEndpoint) → IsEncodable e → to_network_endpoint (encode e) ≡ ok e
unfolding format_int
to_network_endpoint-encode e h =
    subst
      (λ p.
        to_network_endpoint (encode_endpoint e.ip_address e.instance_name (format_int p))
        ≡ ok (record { instance_name = e.instance_name; ip_address = e.ip_address; port = p }))
      (sym h.is_port)
      (to_network_endpoint-parts e.ip_address e.instance_name h.number h.ip h.instance_safe h.small)

-- So encodable endpoints with one encoding are equal.
pub encode-injective :
    (e f : NetworkEndpoint) → IsEncodable e → IsEncodable f → encode e ≡ encode f → e ≡ f
encode-injective e f h k p =
    let same : ok e ≡ ok f =
      sym (to_network_endpoint-encode e h)
      ∙ (ap to_network_endpoint p ∙ to_network_endpoint-encode f k) in
    ok-injective e f same
