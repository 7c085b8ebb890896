-- ===== src/Quote/Samples.antt =====
-- A page and a quote from it, in other letters, for the tests.
use signal_map.Common.{◌+◌, ◌&&◌, ◌||◌, ◌==◌, leb, if◌then◌else◌, List, [], ◌∷◌, Text, codes}
use signal_map.Quote.Normal.{TextTools}
use signal_map.Quote.Match.{Block}

-- ASCII: no character is composed, and one that is a capital has one small letter
abbrev pub ascii : TextTools
ascii = record {
  unescape = λ t. t;
  nfkc = λ c. c ∷ [];
  lower = λ c. (if leb 65 c && leb c 90 then c + 32 else c) ∷ [];
  is_space = λ c. (c == 32) || (c == 10);
  is_digit = λ c. leb 48 c && leb c 57;
}

abbrev pub page : Text
page = codes "Intro: The Tower Is 50 Metres High. And it stands in PRAGUE today, they say."

abbrev pub quote : Text
quote = codes "the tower is 50 metres...it stands in Prague today"

abbrev pub no_blocks : Text → Text → List Block
no_blocks s t = []
