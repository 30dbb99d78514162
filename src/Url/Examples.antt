-- ===== src/Url/Examples.antt =====
-- The theorems on URLs at concrete texts.
use pvr_dispatcharr_unoffici.Prelude.{
  true, false, [], ◌∷◌, List, Bytes, codes, All, ◌≡◌, ◌≢◌, refl, arith,
}
use pvr_dispatcharr_unoffici.Url.{
  url_encode, split_on, host_and_port, port_of, with_port, with_host, with_authority, with_scheme,
  parse_url_origin, is_safe_redirect_target,
}
use pvr_dispatcharr_unoffici.Url.Encode.{percent_decode, IsSafe, url_encode-decodes}
use pvr_dispatcharr_unoffici.Url.Origin.{IsOrigin, parse_url_origin-IsOrigin}
use pvr_dispatcharr_unoffici.Url.Redirect.{SafeChain, last_url, Trusts, SafeChain-Trusts}

abbrev title : Bytes
title = codes "a&b/c"

url_encode-decodes_example :
    (percent_decode (url_encode title) ≡ title) × All IsSafe (url_encode title)
url_encode-decodes_example =
    url_encode-decodes title
      (omega arith, (omega arith, (omega arith, (omega arith, (omega arith, tt)))))

abbrev begin : Bytes
begin = codes "http://TV.local:9191/a?x=1"

abbrev hops : List Bytes
hops = codes "https://tv.local/login" ∷ codes "https://tv.LOCAL:8443/#home" ∷ []

begin-valid : (parse_url_origin begin).valid ≡ true
unfolding parse_url_origin with_scheme with_authority with_host with_port port_of host_and_port
    split_on
begin-valid = refl

parse_url_origin-IsOrigin_example : IsOrigin (parse_url_origin begin)
parse_url_origin-IsOrigin_example = parse_url_origin-IsOrigin begin begin-valid

hops-SafeChain : SafeChain begin hops
unfolding is_safe_redirect_target parse_url_origin with_scheme with_authority with_host with_port
    port_of host_and_port split_on
hops-SafeChain = (refl, (refl, tt))

SafeChain-Trusts_example :
    Trusts (parse_url_origin begin) (parse_url_origin (last_url begin hops))
    × (hops ≢ []
        → IsOrigin (parse_url_origin (last_url begin hops))
          × ((parse_url_origin (last_url begin hops)).has_user_info ≡ false))
SafeChain-Trusts_example = SafeChain-Trusts begin hops hops-SafeChain
