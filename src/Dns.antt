-- ===== src/Dns.antt =====
-- The DNS messages of app/worker.py, by which a worker learns its replica's name: reading a name that
-- may be compressed, the PTR query, and the targets of its response. Octets are numbers below 256, and
-- a text is the list of its code points. The loop over a name takes fuel.
pub mod Fuel
pub mod RoundTrip
pub mod Response
mod Examples
use signal_map.Common.{
  ℕ, zero, suc, ◌+◌, ◌-◌, ◌*◌, ◌/◌, ◌%◌, Bool, true, false, ◌&&◌, ◌||◌, not, Option, none, some,
  List, [], ◌∷◌, ◌++◌, map, leb, ltb, ◌==◌, if◌then◌else◌, any, length, Text, codes, get_elem?,
  slice, drop, take, reverse, Result, ok, raised, index_error, value_error, struct_error,
  out_of_fuel, ◌>>=◌,
}

-- `".".join` and `split(".")`
unfoldable pub join : List Text → Text
join [] = []
join (l ∷ []) = l
join (l ∷ m ∷ ls) = l ++ (46 ∷ join (m ∷ ls))

unfoldable pub split_from : Text → Text → List Text
split_from piece [] = piece ∷ []
split_from piece (c ∷ t) =
    if c == 46 then piece ∷ split_from [] t else split_from (piece ++ (c ∷ [])) t

unfoldable pub split : Text → List Text
unfolding split_from
split t = split_from [] t

-- `decode("ascii", "replace")`
unfoldable pub decode_ascii : List ℕ → Text
decode_ascii [] = []
decode_ascii (b ∷ bs) = (if ltb b 128 then b else 0xfffd) ∷ decode_ascii bs

abbrev pub max_hops : ℕ
max_hops = 16

abbrev first_end : Option ℕ → ℕ → ℕ
first_end none offset = offset
first_end (some end) offset = end

-- the loop of `_read_dns_name`: the labels and the offset after the name. An octet with both high bits
-- (`length & 0xC0 == 0xC0`) is at least 192, and `length & 0x3F` is its remainder by 64.
unfoldable pub read_labels : ℕ → List ℕ → ℕ → ℕ → Option ℕ → Result (List Text × ℕ)
read_labels zero octets offset hops end = raised out_of_fuel
read_labels (suc fuel) octets offset hops end = elim (get_elem? octets offset) [
  | none ↦ raised index_error
  | some n ↦ elim (n == 0) [
    | true ↦ ok ([], first_end end (offset + 1))
    | false ↦ elim (leb 192 n) [
      | false ↦ do
        rest ← read_labels fuel octets (offset + 1 + n) hops end
        ok (decode_ascii (slice octets (offset + 1) (offset + 1 + n)) ∷ rest.0, rest.1)
      | true ↦ elim (get_elem? octets (offset + 1)) [
        | none ↦ raised index_error
        | some low ↦ elim (ltb max_hops (hops + 1)) [
          | true ↦ raised value_error
          | false ↦
              read_labels fuel octets (n % 64 * 256 + low) (hops + 1)
                (some (first_end end (offset + 2)))
        ]
      ]
    ]
  ]
]

-- rounds that are enough: once through the message after each of the `k` hops that are left
unfoldable pub rounds : ℕ → ℕ → ℕ
rounds zero size = 0
rounds (suc k) size = (size + 1) + rounds k size

unfoldable pub read_dns_name : List ℕ → ℕ → Result (Text × ℕ)
unfolding read_labels rounds join
read_dns_name octets offset = do
  name ← read_labels (suc (length octets + rounds max_hops (length octets))) octets offset 0 none
  ok (join name.0, name.1)

-- `bytes([len(label)]) + label.encode("ascii")`, and the same for each label and the root
unfoldable pub encode_label : Text → Result (List ℕ)
encode_label l =
    if ltb 255 (length l) || any (λ c. leb 128 c) l then raised value_error else ok (length l ∷ l)

unfoldable pub encode_name : List Text → Result (List ℕ)
unfolding encode_label
encode_name [] = ok (0 ∷ [])
encode_name (l ∷ ls) = do here ← encode_label l; rest ← encode_name ls; ok (here ++ rest)

-- `struct.pack(">H", n)`
abbrev pub two_octets : ℕ → List ℕ
two_octets n = n / 256 ∷ n % 256 ∷ []

unfoldable pub arpa_name : Text → Text
unfolding join split
arpa_name ip = join (reverse (split ip)) ++ codes ".in-addr.arpa"

-- the header, of one question, and the question's type and class
unfoldable pub pack_query : ℕ → List ℕ → Result (List ℕ)
pack_query query_id question =
    if ltb 65535 query_id
    then raised struct_error
    else ok (
        two_octets query_id
        ++ ((1 ∷ 0 ∷ 0 ∷ 1 ∷ 0 ∷ 0 ∷ 0 ∷ 0 ∷ 0 ∷ 0 ∷ []) ++ (question ++ (0 ∷ 12 ∷ 0 ∷ 1 ∷ []))))

unfoldable pub build_ptr_query : Text → ℕ → Result (List ℕ)
unfolding arpa_name encode_name pack_query
build_ptr_query ip query_id = do
  question ← encode_name (split (arpa_name ip))
  pack_query query_id question

-- an unsigned number of two octets; too few of them are an error of struct
unfoldable pub number_at : List ℕ → ℕ → Result ℕ
number_at octets offset = elim (get_elem? octets offset) [
  | none ↦ raised struct_error
  | some high ↦ elim (get_elem? octets (offset + 1)) [
    | none ↦ raised struct_error
    | some low ↦ ok (high * 256 + low)
  ]
]

unfoldable pub skip_questions : ℕ → List ℕ → ℕ → Result ℕ
unfolding read_dns_name
skip_questions zero octets offset = ok offset
skip_questions (suc n) octets offset = do
  name ← read_dns_name octets offset
  skip_questions n octets (name.1 + 4)

-- the name of a PTR record, and nothing of another
unfoldable pub read_target : ℕ → List ℕ → ℕ → Result (List Text)
unfolding read_dns_name
read_target kind octets offset =
    if kind == 12 then (read_dns_name octets offset >>= (λ t. ok (t.0 ∷ []))) else ok []

-- the record after its name: type, class and TTL, and the length of what follows
unfoldable pub read_answers : ℕ → List ℕ → ℕ → Result (List Text)
unfolding read_dns_name number_at read_target
read_answers zero octets offset = ok []
read_answers (suc n) octets offset = do
  name ← read_dns_name octets offset
  kind ← number_at octets name.1
  size ← number_at octets (name.1 + 8)
  target ← read_target kind octets (name.1 + 10)
  rest ← read_answers n octets (name.1 + 10 + size)
  ok (target ++ rest)

-- nothing of another query's response, or of an error
unfoldable pub read_sections : Bool → ℕ → ℕ → List ℕ → Result (List Text)
unfolding skip_questions read_answers
read_sections true questions answers octets = ok []
read_sections false questions answers octets = do
  offset ← skip_questions questions octets 12
  read_answers answers octets offset

unfoldable pub parse_ptr_response : List ℕ → ℕ → Result (List Text)
unfolding number_at read_sections
parse_ptr_response octets query_id = if ltb (length octets) 12 then ok [] else do
  id ← number_at octets 0
  flags ← number_at octets 2
  questions ← number_at octets 4
  answers ← number_at octets 6
  read_sections (not (id == query_id) || not (flags % 16 == 0)) questions answers octets
