-- ===== src/Dns/RoundTrip.antt =====
-- What is encoded is read back: the name of a query.

use mathlib.Core.List.{append_assoc, append-nil}
use signal_map.Common.{
  ℕ, zero, suc, ◌+◌, ◌-◌, ◌≤◌, ◌<◌, ◌≡◌, refl, sym, ap, ◌∙◌, false, ◌||◌, Option, none, some, List,
  [], ◌∷◌, ◌++◌, arith, All, Text, any, ltb, leb, length, length-append, get_elem?, slice, take,
  drop, ok, ◌>>=◌, >>=-eq-ok, ok_injective, inl, inr, Bool-cases, ◌==◌, if_split, if_both,
}
use signal_map.Dns.{
  join, split, split_from, decode_ascii, read_labels, rounds, max_hops, first_end, read_dns_name,
  encode_label, encode_name, arpa_name, pack_query, build_ptr_query, two_octets,
}

get_elem?-append :
    {A : Type 0} (xs : List A) (x : A) (ys : List A)
    → get_elem? (xs ++ (x ∷ ys)) (length xs) ≡ some x
get_elem?-append [] x ys = refl
get_elem?-append (a ∷ xs) x ys = get_elem?-append xs x ys

drop-append : {A : Type 0} (xs ys : List A) (k : ℕ) → drop (length xs + k) (xs ++ ys) ≡ drop k ys
drop-append [] ys k = ap (λ n. drop n ys) (omega arith)
drop-append (x ∷ xs) ys k =
    let e : suc (length xs) + k ≡ suc (length xs + k) = omega arith in rw e (drop-append xs ys k)

take-append : {A : Type 0} (xs ys : List A) → take (length xs) (xs ++ ys) ≡ xs
take-append [] ys = refl
take-append (x ∷ xs) ys = ap (λ zs. x ∷ zs) (take-append xs ys)

decode_ascii_same : (l : Text) → any (λ c. leb 128 c) l ≡ false → decode_ascii l ≡ l
unfolding decode_ascii
decode_ascii_same [] h = refl
decode_ascii_same (c ∷ l) h =
    let e = decode_ascii_same l (ground (arith, h)) in ground (arith, h, e)

-- the label after its length
slice-label :
    (before l after : List ℕ) (n : ℕ)
    → slice (before ++ (n ∷ (l ++ after))) (length before + 1) (length before + 1 + length l) ≡ l
slice-label before l after n =
    let e : (length before + 1 + length l) - (length before + 1) ≡ length l = omega arith in
    rw e (rw (drop-append before (n ∷ (l ++ after)) 1) (take-append l after))

-- A label that a name may have: not empty, and too short for the octet of a compression pointer.
abbrev pub IsLabel : Text → Type 0
IsLabel l = (1 ≤ length l) × (length l < 192)

encode_label-returns :
    (l : Text) {octets : List ℕ}
    → encode_label l ≡ ok octets
    → (octets ≡ length l ∷ l) × (any (λ c. leb 128 c) l ≡ false)
unfolding encode_label
encode_label-returns l h = elim (Bool-cases (ltb 255 (length l) || any (λ c. leb 128 c) l)) [
  | inl e ↦ absurd (ground (arith, h, e))
  | inr e ↦ (ground (arith, h, e), ground (arith, e))
]

abbrev pub IsAscii : Text → Type 0
IsAscii l = any (λ c. leb 128 c) l ≡ false

-- the octets of a name whose labels are ASCII
unfoldable pub encoded : List Text → List ℕ
encoded [] = 0 ∷ []
encoded (l ∷ ls) = length l ∷ (l ++ encoded ls)

encode_name-returns :
    (ls : List Text) {octets : List ℕ}
    → encode_name ls ≡ ok octets
    → (octets ≡ encoded ls) × All IsAscii ls
unfolding encode_name encoded
encode_name-returns [] e = (ground (arith, e), tt)
encode_name-returns (l ∷ ls) e =
    let (here, f, g) = >>=-eq-ok (encode_label l) _ e in
    let (rest, k, m) = >>=-eq-ok (encode_name ls) _ g in
    let (p, q) = encode_label-returns l f in
    let (r, all) = encode_name-returns ls k in
    (sym (ok_injective m) ∙ ap (λ xs. xs ++ rest) p ∙ ap (λ xs. length l ∷ (l ++ xs)) r, (q, all))

-- one label is read
read_labels-label :
    (fuel : ℕ) (l before tail : List ℕ) (hops : ℕ) (end : Option ℕ)
    → IsLabel l
    → IsAscii l
    → read_labels (suc fuel) (before ++ (length l ∷ (l ++ tail))) (length before) hops end ≡ (
        read_labels fuel
          (before ++ (length l ∷ (l ++ tail)))
          (length before + 1 + length l)
          hops
          end
        >>= (λ rest. ok (l ∷ rest.0, rest.1)))
unfolding read_labels
read_labels-label fuel l before tail hops end (some_octets, few) ascii =
    let here = get_elem?-append before (length l) (l ++ tail) in
    let nonzero : (length l == 0) ≡ false = ground arith in
    let short : leb 192 (length l) ≡ false = ground arith in
    let piece = slice-label before l tail (length l) in
    let same = decode_ascii_same l ascii in ground (arith, here, nonzero, short, piece, same)

-- A name at any place of a message is read back, with the offset after it.
pub read_labels-encoded :
    (fuel : ℕ) (ls : List Text) (before after : List ℕ) (hops : ℕ) (end : Option ℕ)
    → All IsLabel ls
    → All IsAscii ls
    → length ls < fuel
    → read_labels fuel (before ++ (encoded ls ++ after)) (length before) hops end
      ≡ ok (ls, first_end end (length before + length (encoded ls)))
unfolding encoded read_labels
read_labels-encoded zero ls before after hops end h q le = absurd (omega (arith, le))
read_labels-encoded (suc fuel) [] before after hops end h q le =
    let here = get_elem?-append before 0 after in ground (arith, here)
read_labels-encoded (suc fuel) (l ∷ ls) before after hops end (h, hs) (q, qs) le =
    let step = read_labels-label fuel l before (encoded ls ++ after) hops end h q in
    let rest =
      read_labels-encoded fuel ls (before ++ (length l ∷ l)) after hops end hs qs
        (omega (arith, le)) in
    let same = append_assoc before (length l ∷ l) (encoded ls ++ after) in
    let place : length (before ++ (length l ∷ l)) ≡ length before + 1 + length l =
      omega (arith, length-append before (length l ∷ l)) in
    let read = rw (same, place) at rest in
    let total : length before + 1 + length l + length (encoded ls)
        ≡ length before + suc (length (l ++ encoded ls)) =
      omega (arith, length-append l (encoded ls)) in
    rw (append_assoc l (encoded ls) after) (
      step
      ∙ ap (λ r. r >>= (λ rest. ok (l ∷ rest.0, rest.1))) read
      ∙ ap (λ n. ok (l ∷ ls, first_end end n)) total)

-- what is split at the dots is joined by them
join-split_from :
    (p piece t : Text) → join (p ∷ split_from piece t) ≡ p ++ (46 ∷ join (split_from piece t))
unfolding join split_from
join-split_from p piece [] = refl
join-split_from p piece (c ∷ t) =
    if_both (λ ls. join (p ∷ ls) ≡ p ++ (46 ∷ join ls)) (c == 46) refl
      (join-split_from p (piece ++ (c ∷ [])) t)

split_from-join : (piece t : Text) → join (split_from piece t) ≡ piece ++ t
unfolding join split_from
split_from-join piece [] = sym (append-nil piece)
split_from-join piece (c ∷ t) =
    if_split (λ ls. join ls ≡ piece ++ (c ∷ t)) (c == 46)
      (λ dot.
        let e : c ≡ 46 = ground (arith, dot) in
        join-split_from piece [] t
        ∙ ap (λ s. piece ++ (46 ∷ s)) (split_from-join [] t)
        ∙ ap (λ d. piece ++ (d ∷ t)) (sym e))
      (λ letter. split_from-join (piece ++ (c ∷ [])) t ∙ append_assoc piece (c ∷ []) t)

split-join : (t : Text) → join (split t) ≡ t
unfolding split
split-join t = split_from-join [] t

pub length-encoded : (ls : List Text) → length ls < length (encoded ls)
unfolding encoded
length-encoded [] = omega arith
length-encoded (l ∷ ls) = omega (arith, length-append l (encoded ls), length-encoded ls)

-- a name that stands in a message whole
pub read_dns_name-encoded :
    (ls : List Text) (before after : List ℕ)
    → All IsLabel ls
    → All IsAscii ls
    → read_dns_name (before ++ (encoded ls ++ after)) (length before)
      ≡ ok (join ls, length before + length (encoded ls))
unfolding read_dns_name
read_dns_name-encoded ls before after h q =
    let size = length-append before (encoded ls ++ after) in
    let size' = length-append (encoded ls) after in
    let enough = length-encoded ls in
    let octets = before ++ (encoded ls ++ after) in
    let read =
      read_labels-encoded (suc (length octets + rounds max_hops (length octets))) ls before after 0
        none h q (omega (arith, size, size', enough)) in
    ground (arith, read)

-- the header of a query
abbrev header : ℕ → List ℕ
header query_id = two_octets query_id ++ (1 ∷ 0 ∷ 0 ∷ 1 ∷ 0 ∷ 0 ∷ 0 ∷ 0 ∷ 0 ∷ 0 ∷ [])

abbrev pub type_and_class : List ℕ
type_and_class = 0 ∷ 12 ∷ 0 ∷ 1 ∷ []

pack_query-returns :
    (query_id : ℕ) (question : List ℕ) {query : List ℕ}
    → pack_query query_id question ≡ ok query
    → query ≡ header query_id ++ (question ++ type_and_class)
unfolding pack_query
pack_query-returns query_id question h = elim (Bool-cases (ltb 65535 query_id)) [
  | inl e ↦ absurd (ground (arith, h, e))
  | inr e ↦ ground (arith, h, e)
]

-- The query for an address, if it can be built and each label of the name to ask for has from 1 to 191
-- characters, has that name at offset 12: read there, it is the address reversed under in-addr.arpa, and
-- the four octets of the question's type and class are left.
pub read_dns_name-build_ptr_query :
    (ip : Text) (query_id : ℕ) (query : List ℕ)
    → build_ptr_query ip query_id ≡ ok query
    → All IsLabel (split (arpa_name ip))
    → (end : ℕ) × (read_dns_name query 12 ≡ ok (arpa_name ip, end)) × (end + 4 ≡ length query)
unfolding build_ptr_query
read_dns_name-build_ptr_query ip query_id query built h =
    let (question, e, f) = >>=-eq-ok (encode_name (split (arpa_name ip))) _ built in
    let (same, ascii) = encode_name-returns (split (arpa_name ip)) e in
    let whole =
      pack_query-returns query_id question f
      ∙ ap (λ q. header query_id ++ (q ++ type_and_class)) same in
    let read =
      read_dns_name-encoded (split (arpa_name ip)) (header query_id) type_and_class h ascii in
    (
      12 + length (encoded (split (arpa_name ip))),
      rw whole (
          read
          ∙ ap (λ name. ok (name, 12 + length (encoded (split (arpa_name ip)))))
              (split-join (arpa_name ip))),
      rw whole (omega (arith, length-append (encoded (split (arpa_name ip))) type_and_class)),
    )
