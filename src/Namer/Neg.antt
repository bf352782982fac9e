-- ===== src/Namer/Neg.antt =====
-- The name of a network endpoint group: its length, and that the cluster finds it again.
use ingress_gce.Base.{
  ◌+◌, ◌≤◌, ◌≡◌, true, some, List, [], ◌∷◌, ◌++◌, Str, codes, has_prefix-append, length,
  length-append, length-take, All, dec_lt, arith,
}
use ingress_gce.Base.Options.{◌>>=◌}
use ingress_gce.Trim.{total_length, trim_fields_evenly}
use ingress_gce.Trim.Sums.{IsNonempty}
use ingress_gce.Trim.Laws.{trim-fills, trim-short, Prefixes}
use ingress_gce.Namer.{Namer, uid, neg_prefix, is_neg, neg_suffix, neg_of, neg}

-- Three fields that take at most 30 bytes.
record Trimmed (fields : List Str) : Type 0 where
  one : Str
  two : Str
  three : Str
  result : trim_fields_evenly 30 fields ≡ some (one ∷ two ∷ three ∷ [])
  fits : length one + length two + length three ≤ 30

Trimmed-of_Prefixes :
    (ret : List Str) (a b c : Str)
    → trim_fields_evenly 30 (a ∷ b ∷ c ∷ []) ≡ some ret
    → total_length ret ≤ 30
    → Prefixes ret (a ∷ b ∷ c ∷ [])
    → Trimmed (a ∷ b ∷ c ∷ [])
unfolding total_length
Trimmed-of_Prefixes [] a b c e h p = absurd p
Trimmed-of_Prefixes (x ∷ []) a b c e h p = absurd p.1
Trimmed-of_Prefixes (x ∷ y ∷ []) a b c e h p = absurd p.1.1
Trimmed-of_Prefixes (x ∷ y ∷ z ∷ w ∷ r) a b c e h p = absurd p.1.1.1
Trimmed-of_Prefixes (x ∷ y ∷ z ∷ []) a b c e h p = record {
  one = x;
  two = y;
  three = z;
  result = e;
  fits = omega arith;
}

total_three : (a b c : Str) → total_length (a ∷ b ∷ c ∷ []) ≡ length a + length b + length c
unfolding total_length
total_three a b c = omega arith

trimmed : (a b c : Str) → All IsNonempty (a ∷ b ∷ c ∷ []) → Trimmed (a ∷ b ∷ c ∷ [])
trimmed a b c h = elim (dec_lt 30 (total_length (a ∷ b ∷ c ∷ []))) [
  | yes long ↦
      let (ret, e, total, p) = trim-fills 30 (a ∷ b ∷ c ∷ []) (omega arith) long h in
      Trimmed-of_Prefixes ret a b c e (omega (arith, total)) p
  | no short ↦ record {
    one = a;
    two = b;
    three = c;
    result = trim-short 30 (a ∷ b ∷ c ∷ []) (omega arith);
    fits = omega (arith, total_three a b c);
  }
]

length-join :
    (a b c d e : Str)
    → length
        (a ++ (codes "-" ++ (b ++ (codes "-" ++ (c ++ (codes "-" ++ (d ++ (codes "-" ++ e))))))))
      ≡ length a + length b + length c + length d + length e + 4
length-join a b c d e = omega (
  arith,
  length-append a
      (codes "-" ++ (b ++ (codes "-" ++ (c ++ (codes "-" ++ (d ++ (codes "-" ++ e))))))),
  length-append b (codes "-" ++ (c ++ (codes "-" ++ (d ++ (codes "-" ++ e))))),
  length-append c (codes "-" ++ (d ++ (codes "-" ++ e))),
  length-append d (codes "-" ++ e),
)

neg_prefix-length : (n : Namer) → length (neg_prefix n) ≡ length (uid n) + 5
unfolding neg_prefix
neg_prefix-length n = omega arith

module _ (md5_hex : Str → Str) where
  neg_suffix-length :
      (namespace name port : Str) → length (neg_suffix md5_hex namespace name port) ≤ 8
  unfolding neg_suffix
  neg_suffix-length namespace name port =
      omega (arith, length-take 8 (md5_hex (namespace ++ name ++ port)))

  -- The name of a group exists for every service port, is recognised by the cluster, and has at most
  -- 63 bytes if the cluster's UID has at most 16: no field is empty, so no slice panics.
  pub neg_lem :
      (n : Namer) (namespace name port : Str)
      → 1 ≤ length namespace
      → 1 ≤ length name
      → 1 ≤ length port
      → length (uid n) ≤ 16
      → (s : Str) × (neg md5_hex n namespace name port ≡ some s)
        × (is_neg n s ≡ true)
        × (length s ≤ 63)
  unfolding neg neg_of is_neg
  neg_lem n namespace name port h1 h2 h3 hu =
      let t = trimmed namespace name port (h1, (h2, (h3, tt))) in
      let suffix = neg_suffix md5_hex namespace name port in
      let tail =
        codes "-"
        ++ (t.one ++ (codes "-" ++ (t.two ++ (codes "-" ++ (t.three ++ (codes "-" ++ suffix)))))) in
      (
        neg_prefix n ++ tail,
        rw (t.result, ◌>>=◌),
        has_prefix-append (neg_prefix n) tail,
        omega (
          arith,
          length-join (neg_prefix n) t.one t.two t.three suffix,
          t.fits,
          neg_prefix-length n,
          neg_suffix-length namespace name port,
        ),
      )
