-- ===== src/Passages/Examples.antt =====
-- A test and an instance for app/services/passages.py: two sentences, and a score by length.
use signal_map.Common.{ℕ, ◌≤◌, ◌≡◌, refl, Bool, ◌==◌, List, [], ◌∷◌, length, map, All, Text, codes}
use signal_map.Passages.{select_passages, candidates_of, split_sentences, zip}
use signal_map.Passages.Bounds.{total_chars, HasNoRepeat, HasScore, select_passages-bounds}

abbrev is_blank : ℕ → Bool
is_blank c = c == 32

abbrev by_length : Text → List Text → List ℕ
by_length claim cs = map (λ c. length c) cs

abbrev page : Text
page = codes " Alpha beta.  Gamma delta z.b. epsilon. "

sentences_split :
    split_sentences is_blank page ≡ codes "Alpha beta." ∷ codes "Gamma delta z.b. epsilon." ∷ []
unfolding split_sentences
sentences_split = refl

longest_first :
    select_passages is_blank by_length [] page 5 45
    ≡ codes "Alpha beta. Gamma delta z.b. epsilon." ∷ []
unfolding select_passages
longest_first = refl

select_passages-bounds_example :
    let candidates = candidates_of (split_sentences is_blank page) in
    let out = select_passages is_blank by_length [] page 5 45 in
    (length out ≤ 5)
    × (total_chars out ≤ 45)
    × HasNoRepeat out
    × All (HasScore (zip candidates (by_length [] candidates))) out
select_passages-bounds_example = select_passages-bounds is_blank by_length [] page 5 45
