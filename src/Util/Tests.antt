-- ===== src/Util/Tests.antt =====
-- Runs of the theorems on src/util.rs.
use Prim.Native.Nat.{Ordering}
use dewdb.Prelude.{◌≡◌, ◌↔◌, true, [], ◌∷◌, codes, some, arith}
use dewdb.Util.Endpoint.{cmp_endpoint, same_endpoint, node_key}
use dewdb.Util.Endpoint.Laws.{identities_agree}
use dewdb.Util.Base64.{base64_encode, base64_encode_url, base64_decode}
use dewdb.Util.Base64.Roundtrip.{base64_roundtrip}

identities_agree_example :
    ((cmp_endpoint (codes "http://A/") (codes "http://a") ≡ Ordering.eq)
      ↔ (same_endpoint (codes "http://A/") (codes "http://a") ≡ true))
    × ((same_endpoint (codes "http://A/") (codes "http://a") ≡ true)
        ↔ (node_key (codes "http://A/") ≡ node_key (codes "http://a")))
identities_agree_example = identities_agree (codes "http://A/") (codes "http://a")

base64_roundtrip_example :
    (base64_decode (base64_encode (0 ∷ 255 ∷ 17 ∷ 200 ∷ [])) ≡ some (0 ∷ 255 ∷ 17 ∷ 200 ∷ []))
    × (base64_decode (base64_encode_url (0 ∷ 255 ∷ 17 ∷ 200 ∷ [])) ≡ some (0 ∷ 255 ∷ 17 ∷ 200 ∷ []))
base64_roundtrip_example =
    base64_roundtrip (0 ∷ 255 ∷ 17 ∷ 200 ∷ [])
      (omega arith, (omega arith, (omega arith, (omega arith, tt))))
