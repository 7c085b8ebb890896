-- ===== src/Dns/Examples.antt =====
-- Tests and instances for the DNS messages of app/worker.py: a query, and the response to it, whose
-- record names the question by a compression pointer.
use signal_map.Common.{
  ℕ, ◌+◌, ◌≡◌, ◌≢◌, refl, List, [], ◌∷◌, ◌++◌, arith, length, Text, codes, ok, raised, out_of_fuel,
}
use signal_map.Dns.{
  read_dns_name, build_ptr_query, arpa_name, parse_ptr_response, decode_ascii, join,
}
use signal_map.Dns.Response
use signal_map.Dns.Fuel.{read_dns_name_ends}
use signal_map.Dns.RoundTrip.{read_dns_name-build_ptr_query}

abbrev ip : Text
ip = codes "172.18.0.5"

abbrev name : List ℕ
name =
    (1 ∷ codes "5")
    ++ ((1 ∷ codes "0")
        ++ ((2 ∷ codes "18")
            ++ ((3 ∷ codes "172") ++ ((7 ∷ codes "in-addr") ++ ((4 ∷ codes "arpa") ++ (0 ∷ []))))))

abbrev query : List ℕ
query = 1 ∷ 2 ∷ 1 ∷ 0 ∷ 0 ∷ 1 ∷ 0 ∷ 0 ∷ 0 ∷ 0 ∷ 0 ∷ 0 ∷ (name ++ (0 ∷ 12 ∷ 0 ∷ 1 ∷ []))

built : build_ptr_query ip 258 ≡ ok query
unfolding build_ptr_query
built = refl

abbrev response : List ℕ
response =
    1
    ∷ 2
    ∷ 129
    ∷ 128
    ∷ 0
    ∷ 1
    ∷ 0
    ∷ 1
    ∷ 0
    ∷ 0
    ∷ 0
    ∷ 0
    ∷ (name
        ++ (0
            ∷ 12
            ∷ 0
            ∷ 1
            ∷ 192
            ∷ 12
            ∷ 0
            ∷ 12
            ∷ 0
            ∷ 1
            ∷ 0
            ∷ 0
            ∷ 2
            ∷ 88
            ∷ 0
            ∷ 10
            ∷ 8
            ∷ (codes "worker-1" ++ (0 ∷ []))))

target_read : parse_ptr_response response 258 ≡ ok (codes "worker-1" ∷ [])
unfolding parse_ptr_response decode_ascii
target_read = refl

read_dns_name-build_ptr_query_example :
    (end : ℕ) × (read_dns_name query 12 ≡ ok (arpa_name ip, end)) × (end + 4 ≡ length query)
read_dns_name-build_ptr_query_example = read_dns_name-build_ptr_query ip 258 query built (
    unfold arpa_name in
    (
      (omega arith, omega arith),
      (
        (omega arith, omega arith),
        (
          (omega arith, omega arith),
          (
            (omega arith, omega arith),
            ((omega arith, omega arith), ((omega arith, omega arith), tt)),
          ),
        ),
      ),
    ))

read_dns_name_ends_example : read_dns_name (192 ∷ 0 ∷ []) 0 ≢ raised out_of_fuel
read_dns_name_ends_example = read_dns_name_ends (192 ∷ 0 ∷ []) 0

abbrev worker_name : List Text
worker_name = codes "app-worker-1" ∷ codes "net" ∷ []

abbrev asked_name : List Text
asked_name = codes "5" ∷ codes "arpa" ∷ []

parse_ptr_response-response_example :
    parse_ptr_response (Response.response 258 asked_name worker_name 0 0 2 88) 258
    ≡ ok (join worker_name ∷ [])
parse_ptr_response-response_example =
    Response.parse_ptr_response-response 258 asked_name worker_name 0 0 2 88
      ((omega arith, omega arith), ((omega arith, omega arith), tt)) (refl, (refl, tt))
      ((omega arith, omega arith), ((omega arith, omega arith), tt)) (refl, (refl, tt))
