-- ===== src/Dns/Response.antt =====
-- The response to a PTR query: its record names the question by a compression pointer.

use mathlib.Core.List.{append_assoc}
use signal_map.Common.{
  ℕ, suc, ◌+◌, ◌*◌, ◌/◌, ◌%◌, ◌<◌, ◌≡◌, refl, sym, ap, ◌∙◌, false, none, some, List, [], ◌∷◌, ◌++◌,
  arith, All, Text, length, length-append, get_elem?, ok, ◌>>=◌, ltb,
}
use signal_map.Dns.{
  join, read_labels, rounds, max_hops, read_dns_name, number_at, skip_questions, read_target,
  read_answers, read_sections, parse_ptr_response, two_octets,
}
use signal_map.Dns.RoundTrip.{
  IsLabel, IsAscii, encoded, read_labels-encoded, read_dns_name-encoded, length-encoded,
  type_and_class,
}

get_elem?-skip : (xs ys : List ℕ) (k : ℕ) → get_elem? (xs ++ ys) (length xs + k) ≡ get_elem? ys k
get_elem?-skip [] ys k = ap (get_elem? ys) (omega arith)
get_elem?-skip (x ∷ xs) ys k =
    let e : suc (length xs) + k ≡ suc (length xs + k) = omega arith in rw e (get_elem?-skip xs ys k)

-- one question, and one record
abbrev response_header : ℕ → List ℕ
response_header query_id = two_octets query_id ++ (129 ∷ 128 ∷ 0 ∷ 1 ∷ 0 ∷ 1 ∷ 0 ∷ 0 ∷ 0 ∷ 0 ∷ [])

-- the record up to its target: the pointer to offset 12, PTR, IN, four octets of TTL, and the length
abbrev record_head : List ℕ → ℕ → List ℕ
record_head ttl size = 192 ∷ 12 ∷ 0 ∷ 12 ∷ 0 ∷ 1 ∷ (ttl ++ two_octets size)

-- a response to the query of a name, whose record has the name of `target`
abbrev pub response : ℕ → List Text → List Text → ℕ → ℕ → ℕ → ℕ → List ℕ
response query_id asked target a b c d =
    response_header query_id
    ++ (encoded asked
        ++ (type_and_class
            ++ (record_head (a ∷ b ∷ c ∷ d ∷ []) (length (encoded target))
                ++ (encoded target ++ []))))

module _ (query_id : ℕ) (asked target : List Text) (a b c d : ℕ) (asked_labels : All IsLabel asked)
    (asked_ascii : All IsAscii asked) (target_labels : All IsLabel target)
    (target_ascii : All IsAscii target) where
  octets : List ℕ
  octets = response query_id asked target a b c d

  -- what stands before the record
  front : List ℕ
  front = response_header query_id ++ (encoded asked ++ type_and_class)

  after_front : List ℕ
  after_front = record_head (a ∷ b ∷ c ∷ d ∷ []) (length (encoded target)) ++ (encoded target ++ [])

  octets-front : octets ≡ front ++ after_front
  unfolding octets front after_front
  octets-front = sym (
      append_assoc (response_header query_id) (encoded asked ++ type_and_class) after_front
      ∙ ap (λ xs. response_header query_id ++ xs)
          (append_assoc (encoded asked) type_and_class after_front))

  at_record : (k : ℕ) → get_elem? octets (length front + k) ≡ get_elem? after_front k
  at_record k = rw octets-front (get_elem?-skip front after_front k)

  length-front : length front ≡ 12 + length (encoded asked) + 4
  unfolding front
  length-front = omega (arith, length-append (encoded asked) type_and_class)

  question_name : read_dns_name octets 12 ≡ ok (join asked, 12 + length (encoded asked))
  unfolding octets after_front
  question_name =
      read_dns_name-encoded asked (response_header query_id) (type_and_class ++ after_front)
        asked_labels asked_ascii

  question_read : skip_questions 1 octets 12 ≡ ok (length front)
  unfolding skip_questions
  question_read =
      ap (λ r. r >>= (λ (name : Text × ℕ). skip_questions 0 octets (name.1 + 4))) question_name
      ∙ ap ok (sym length-front)

  long_enough : length asked < length octets
  unfolding octets
  long_enough = omega (
    arith,
    length-encoded asked,
    length-append (encoded asked) (
        type_and_class
        ++ (record_head (a ∷ b ∷ c ∷ d ∷ []) (length (encoded target)) ++ (encoded target ++ []))),
  )

  -- the question's name, after the hop
  hopped :
      (fuel : ℕ)
      → length asked < fuel
      → read_labels fuel octets 12 1 (some (length front + 2)) ≡ ok (asked, length front + 2)
  unfolding octets after_front
  hopped fuel h =
      read_labels-encoded fuel asked (response_header query_id) (type_and_class ++ after_front) 1
        (some (length front + 2)) asked_labels asked_ascii h

  pointer_labels :
      (fuel : ℕ)
      → length asked < fuel
      → read_labels (suc fuel) octets (length front) 0 none ≡ ok (asked, length front + 2)
  unfolding read_labels after_front
  pointer_labels fuel h =
      let high : get_elem? octets (length front) ≡ some 192 =
        ap (get_elem? octets) (omega arith) ∙ at_record 0 in
      let low = at_record 1 in let next = hopped fuel h in ground (arith, high, low, next)

  pointer_read : read_dns_name octets (length front) ≡ ok (join asked, length front + 2)
  unfolding read_dns_name
  pointer_read =
      ap (λ r. r >>= (λ (name : List Text × ℕ). ok (join name.0, name.1)))
        (pointer_labels (length octets + rounds max_hops (length octets))
          (omega (arith, long_enough)))

  -- what stands before the target
  before_target : List ℕ
  before_target = front ++ record_head (a ∷ b ∷ c ∷ d ∷ []) (length (encoded target))

  octets-before_target : octets ≡ before_target ++ (encoded target ++ [])
  unfolding before_target after_front
  octets-before_target =
      octets-front
      ∙ sym (
          append_assoc front (record_head (a ∷ b ∷ c ∷ d ∷ []) (length (encoded target)))
            (encoded target ++ []))

  length-before_target : length before_target ≡ length front + 2 + 10
  unfolding before_target
  length-before_target =
      omega
        (arith, length-append front (record_head (a ∷ b ∷ c ∷ d ∷ []) (length (encoded target))))

  target_name :
      read_dns_name octets (length front + 2 + 10)
      ≡ ok (join target, length before_target + length (encoded target))
  target_name =
      rw (octets-before_target, sym length-before_target)
        (read_dns_name-encoded target before_target [] target_labels target_ascii)

  target_read : read_target 12 octets (length front + 2 + 10) ≡ ok (join target ∷ [])
  unfolding read_target
  target_read = ap (λ r. r >>= (λ (t : Text × ℕ). ok (t.0 ∷ []))) target_name

  kind_read : number_at octets (length front + 2) ≡ ok 12
  unfolding number_at after_front
  kind_read =
      let high = at_record 2 in
      let low : get_elem? octets (length front + 2 + 1) ≡ some 12 =
        ap (get_elem? octets) (omega arith) ∙ at_record 3 in
      ground (arith, high, low)

  size_read : (size : ℕ) × (number_at octets (length front + 2 + 8) ≡ ok size)
  unfolding number_at after_front
  size_read =
      let high : get_elem? octets (length front + 2 + 8) ≡ some (length (encoded target) / 256) =
        ap (get_elem? octets) (omega arith) ∙ at_record 10 in
      let low : get_elem? octets (length front + 2 + 8 + 1) ≡ some (length (encoded target) % 256) =
        ap (get_elem? octets) (omega arith) ∙ at_record 11 in
      (
        length (encoded target) / 256 * 256 + length (encoded target) % 256,
        ground (arith, high, low),
      )

  answers_read : read_answers 1 octets (length front) ≡ ok (join target ∷ [])
  unfolding read_answers
  answers_read =
      let (size, read) = size_read in ground (arith, pointer_read, kind_read, read, target_read)

  id_read : number_at octets 0 ≡ ok query_id
  unfolding number_at octets
  id_read = ap ok (omega arith)

  flags_read : number_at octets 2 ≡ ok 33152
  unfolding number_at octets
  flags_read = refl

  questions_read : number_at octets 4 ≡ ok 1
  unfolding number_at octets
  questions_read = refl

  records_read : number_at octets 6 ≡ ok 1
  unfolding number_at octets
  records_read = refl

  whole_header : ltb (length octets) 12 ≡ false
  unfolding octets
  whole_header = ground arith

-- The response to a query of a name, with one PTR record that names the question by a compression
-- pointer, is read as the record's target, for every id, TTL, and every two names whose labels are ASCII
-- of 1 to 191 characters.
pub parse_ptr_response-response :
    (query_id : ℕ) (asked target : List Text) (a b c d : ℕ)
    → All IsLabel asked
    → All IsAscii asked
    → All IsLabel target
    → All IsAscii target
    → parse_ptr_response (response query_id asked target a b c d) query_id ≡ ok (join target ∷ [])
unfolding parse_ptr_response read_sections octets
parse_ptr_response-response query_id asked target a b c d al aa tl ta =
    let id = id_read query_id asked target a b c d al aa tl ta in
    let flags = flags_read query_id asked target a b c d al aa tl ta in
    let questions = questions_read query_id asked target a b c d al aa tl ta in
    let records = records_read query_id asked target a b c d al aa tl ta in
    let header = whole_header query_id asked target a b c d al aa tl ta in
    let skip = question_read query_id asked target a b c d al aa tl ta in
    let answers = answers_read query_id asked target a b c d al aa tl ta in
    ground (arith, id, flags, questions, records, header, skip, answers)
