-- ===== src/Quote/Normal.antt =====
-- `normalize`: a text in its normal form, with the offset in the original of every character.
use signal_map.Common.{
  ℕ, zero, suc, ◌+◌, ◌-◌, Bool, true, false, ◌&&◌, ◌||◌, Option, none, some, List, [], ◌∷◌, ◌++◌,
  map, leb, ◌==◌, if◌then◌else◌, any, Text, take, drop, get_elem?, run_length, strip, same_text,
  Result, ok, raised, index_error,
}
use mathlib.Core.List.{flat_map}

-- the parts of Python's library that the code reads texts with: `html.unescape` of an entity, NFKC
-- and `str.lower` of a character, which may be several, and the classes \s and \d
pub record TextTools : Type 0 where
  pub unescape : Text → Text
  pub nfkc : ℕ → Text
  pub lower : ℕ → Text
  pub is_space : ℕ → Bool
  pub is_digit : ℕ → Bool

-- [0-9a-fA-F], [a-zA-Z] and [a-zA-Z0-9]
abbrev is_in : ℕ → ℕ → ℕ → Bool
is_in a b c = leb a c && leb c b

abbrev is_number : ℕ → Bool
is_number c = is_in 48 57 c

abbrev is_hex : ℕ → Bool
is_hex c = is_number c || (is_in 97 102 c || is_in 65 70 c)

abbrev is_alpha : ℕ → Bool
is_alpha c = is_in 97 122 c || is_in 65 90 c

abbrev is_alnum : ℕ → Bool
is_alnum c = is_alpha c || is_number c

-- the length of a body of `n` characters and the `;` after it, if both are there
abbrev closed : ℕ → Text → Option ℕ
closed zero t = none
closed (suc n) t = elim (drop (suc n) t) [
  | [] ↦ none
  | c ∷ r ↦ if c == 59 then some (suc n + 1) else none
]

abbrev numeric_body : Text → Option ℕ
numeric_body [] = none
numeric_body (c ∷ t) =
    if c == 120
    then elim (closed (run_length is_hex t) t) [ none ↦ none | some n ↦ some (n + 1) ]
    else closed (run_length is_hex (c ∷ t)) (c ∷ t)

-- `_ENTITY_RE` at the head of a text: the length of the match
unfoldable pub entity_at : Text → Option ℕ
entity_at [] = none
entity_at (a ∷ []) = none
entity_at (a ∷ c ∷ t) =
    if a == 38
    then (if c == 35
        then elim (numeric_body t) [ none ↦ none | some n ↦ some (n + 2) ]
        else if is_alpha c
        then elim (closed (suc (run_length is_alnum t)) (c ∷ t)) [
          | none ↦ none
          | some n ↦ some (n + 1)
        ]
        else none)
    else none

-- the quote and dash maps
abbrev is_one_of : List ℕ → ℕ → Bool
is_one_of cs c = any (λ d. c == d) cs

abbrev double_quotes : List ℕ
double_quotes = 0x201c ∷ 0x201d ∷ 0x201e ∷ 0x201f ∷ []

abbrev single_quotes : List ℕ
single_quotes = 0x2018 ∷ 0x2019 ∷ 0x201a ∷ 0x2039 ∷ 0x203a ∷ 0x60 ∷ 0xb4 ∷ []

abbrev dashes : List ℕ
dashes = 0x2010 ∷ 0x2011 ∷ 0x2012 ∷ 0x2013 ∷ 0x2014 ∷ 0x2015 ∷ 0x2212 ∷ []

pub record NormalizedText : Type 0 where
  pub text : Text
  pub offsets : List ℕ

-- `to_original_range`: an index out of range raises
unfoldable pub to_original_range : NormalizedText → ℕ → ℕ → ℕ → Result (ℕ × ℕ)
to_original_range n start end original_length = elim (get_elem? n.offsets start) [
  | none ↦ raised index_error
  | some a ↦ ok (a, elim (get_elem? n.offsets end) [ none ↦ original_length | some b ↦ b ])
]

-- A piece of the normal form: what one character has become, and its offset. It is one character but
-- where `str.lower` makes it longer.
abbrev pub Piece : Type 0
Piece = Text × ℕ

abbrev pub is_blank : Piece → Bool
is_blank (s, i) = same_text s (32 ∷ [])

module _ (tools : TextTools) where
  -- `_decode_entities`, from the position `i` on, with `skip` characters of an entity left
  unfoldable pub decode_entities : ℕ → ℕ → Text → List (ℕ × ℕ)
  decode_entities i skip [] = []
  decode_entities i zero (c ∷ t) = elim (entity_at (c ∷ t)) [
    | none ↦ (c, i) ∷ decode_entities (i + 1) 0 t
    | some n ↦
        map (λ d. (d, i)) (tools.unescape (take n (c ∷ t))) ++ decode_entities (i + 1) (n - 1) t
  ]
  decode_entities i (suc k) (c ∷ t) = decode_entities (i + 1) k t

  unfoldable pub expand_char : ℕ → Text
  expand_char c =
      if c == 0xad
      then []
      else if is_one_of (0xdf ∷ 0x1e9e ∷ []) c
      then 115 ∷ 115 ∷ []
      else if is_one_of double_quotes c
      then 34 ∷ []
      else if is_one_of single_quotes c
      then 39 ∷ []
      else if is_one_of dashes c
      then 45 ∷ []
      else tools.nfkc c

  -- expanded_chars and expanded_offsets
  unfoldable pub expand : List (ℕ × ℕ) → List Piece
  expand [] = []
  expand ((c, i) ∷ ps) = map (λ d. (tools.lower d, i)) (expand_char c) ++ expand ps

  -- `ch.isspace()` of a text: not of the empty one
  abbrev pub is_space_text : Text → Bool
  is_space_text [] = false
  is_space_text (c ∷ []) = tools.is_space c
  is_space_text (c ∷ d ∷ s) = tools.is_space c && is_space_text (d ∷ s)

  unfoldable pub collapse : Bool → List Piece → List Piece
  collapse prev_was_space [] = []
  collapse prev_was_space ((s, i) ∷ ps) =
      if is_space_text s
      then (if prev_was_space then collapse true ps else (32 ∷ [], i) ∷ collapse true ps)
      else (s, i) ∷ collapse false ps

  unfoldable pub pieces : Text → List Piece
  unfolding decode_entities expand collapse
  pieces t = strip is_blank (collapse false (expand (decode_entities 0 0 t)))

  unfoldable pub normalize : Text → NormalizedText
  unfolding pieces
  normalize t = record {
    text = flat_map (λ (p : Piece). p.0) (pieces t);
    offsets = map (λ (p : Piece). p.1) (pieces t);
  }
