-- ===== src/Jobs/Urls.antt =====
-- The list of URLs that a capture job goes through.
use mathlib.Core.Path.{subst}
use text.Mathlib.Text.{◌==◌ as str_eq}
use text.Mathlib.TextEquality.{eq_iff}
use signal_map.Common.{
  ◌≡◌, ◌⊎◌, refl, sym, ap, String, true, false, Option, none, some, List, [], ◌∷◌, ◌++◌, arith, any,
  if_split, inl, inr, Bool-cases, In, All,
}
use signal_map.Jobs.{add_url, collect_urls, citation_urls}

-- No text twice, and the texts of a list of columns.
abbrev pub IsDistinct : List String → Type 0
IsDistinct [] = Unit
IsDistinct (x ∷ xs) = All (λ (y : String). str_eq x y ≡ false) xs × IsDistinct xs

some_injective : {a b : String} → some a ≡ some b → a ≡ b
some_injective h = cc

-- The test `url in seen`.
seen_In : (u : String) (seen : List String) → any (λ x. str_eq x u) seen ≡ true → In u seen
seen_In u [] h = absurd (ground (arith, h))
seen_In u (x ∷ xs) h = elim (Bool-cases (str_eq x u)) [
  | inl e ↦ inl (sym ((eq_iff x u).0 e))
  | inr e ↦ inr (seen_In u xs (ground (arith, h, e)))
]

In-append : (y : String) (xs : List String) (u : String) → In y (xs ++ (u ∷ [])) → In y xs ⊎ (y ≡ u)
In-append y [] u (inl e) = inr e
In-append y [] u (inr m) = absurd m
In-append y (x ∷ xs) u (inl e) = inl (inl e)
In-append y (x ∷ xs) u (inr m) = elim (In-append y xs u m) [ inl k ↦ inl (inr k) | inr e ↦ inr e ]

append_kept : (y : String) (xs : List String) (u : String) → In y xs → In y (xs ++ (u ∷ []))
append_kept y [] u m = absurd m
append_kept y (x ∷ xs) u (inl e) = inl e
append_kept y (x ∷ xs) u (inr m) = inr (append_kept y xs u m)

append_last : (xs : List String) (u : String) → In u (xs ++ (u ∷ []))
append_last [] u = inl refl
append_last (x ∷ xs) u = inr (append_last xs u)

append_All :
    (x u : String) (xs : List String)
    → str_eq x u ≡ false
    → All (λ (y : String). str_eq x y ≡ false) xs
    → All (λ (y : String). str_eq x y ≡ false) (xs ++ (u ∷ []))
append_All x u [] h all = (h, tt)
append_All x u (y ∷ xs) h (here, rest) = (here, append_All x u xs h rest)

append-IsDistinct :
    (u : String) (seen : List String)
    → any (λ x. str_eq x u) seen ≡ false
    → IsDistinct seen
    → IsDistinct (seen ++ (u ∷ []))
append-IsDistinct u [] h d = (tt, tt)
append-IsDistinct u (x ∷ xs) h (here, rest) = elim (Bool-cases (str_eq x u)) [
  | inl e ↦ absurd (ground (arith, h, e))
  | inr e ↦ (append_All x u xs e here, append-IsDistinct u xs (ground (arith, h, e)) rest)
]

add_url-IsDistinct :
    (u : String) (seen : List String) → IsDistinct seen → IsDistinct (add_url u seen)
unfolding add_url
add_url-IsDistinct u seen d =
    if_split IsDistinct (any (λ x. str_eq x u) seen) (λ _. d)
      (λ new. append-IsDistinct u seen new d)

add_url-In : (y u : String) (seen : List String) → In y (add_url u seen) → In y seen ⊎ (y ≡ u)
unfolding add_url
add_url-In y u seen =
    if_split (λ (xs : List String). In y xs → In y seen ⊎ (y ≡ u)) (any (λ x. str_eq x u) seen)
      (λ _ m. inl m) (λ _ m. In-append y seen u m)

add_url_kept : (y u : String) (seen : List String) → In y seen → In y (add_url u seen)
unfolding add_url
add_url_kept y u seen m =
    if_split (In y) (any (λ x. str_eq x u) seen) (λ _. m) (λ _. append_kept y seen u m)

add_url_new : (u : String) (seen : List String) → In u (add_url u seen)
unfolding add_url
add_url_new u seen =
    if_split (In u) (any (λ x. str_eq x u) seen) (λ there. seen_In u seen there)
      (λ _. append_last seen u)

collect_urls-IsDistinct :
    (seen : List String) (urls : List (Option String))
    → IsDistinct seen
    → IsDistinct (collect_urls seen urls)
unfolding collect_urls
collect_urls-IsDistinct seen [] d = d
collect_urls-IsDistinct seen (none ∷ urls) d = collect_urls-IsDistinct seen urls d
collect_urls-IsDistinct seen (some u ∷ urls) d =
    collect_urls-IsDistinct (add_url u seen) urls (add_url-IsDistinct u seen d)

collect_urls-In :
    (seen : List String) (urls : List (Option String)) (y : String)
    → In y (collect_urls seen urls)
    → In y seen ⊎ In (some y) urls
unfolding collect_urls
collect_urls-In seen [] y m = inl m
collect_urls-In seen (none ∷ urls) y m = elim (collect_urls-In seen urls y m) [
  | inl old ↦ inl old
  | inr new ↦ inr (inr new)
]
collect_urls-In seen (some u ∷ urls) y m = elim (collect_urls-In (add_url u seen) urls y m) [
  | inl old ↦ elim (add_url-In y u seen old) [ inl k ↦ inl k | inr e ↦ inr (inl (ap some e)) ]
  | inr new ↦ inr (inr new)
]

collect_urls_kept :
    (seen : List String) (urls : List (Option String)) (y : String)
    → In y seen
    → In y (collect_urls seen urls)
unfolding collect_urls
collect_urls_kept seen [] y m = m
collect_urls_kept seen (none ∷ urls) y m = collect_urls_kept seen urls y m
collect_urls_kept seen (some u ∷ urls) y m =
    collect_urls_kept (add_url u seen) urls y (add_url_kept y u seen m)

collect_urls_all :
    (seen : List String) (urls : List (Option String)) (y : String)
    → In (some y) urls
    → In y (collect_urls seen urls)
unfolding collect_urls
collect_urls_all seen [] y m = absurd m
collect_urls_all seen (none ∷ urls) y (inl e) = absurd (ground (arith, e))
collect_urls_all seen (none ∷ urls) y (inr m) = collect_urls_all seen urls y m
collect_urls_all seen (some u ∷ urls) y (inl e) =
    collect_urls_kept (add_url u seen) urls y
      (subst (λ (z : String). In z (add_url u seen)) (sym (some_injective e)) (add_url_new u seen))
collect_urls_all seen (some u ∷ urls) y (inr m) = collect_urls_all (add_url u seen) urls y m

-- The list of URLs that a capture job goes through has no URL twice, every URL of the citations that is
-- not NULL, and no other.
pub citation_urls-IsDistinct :
    (urls : List (Option String))
    → IsDistinct (citation_urls urls)
      × ((y : String) → In (some y) urls → In y (citation_urls urls))
      × ((y : String) → In y (citation_urls urls) → In (some y) urls)
unfolding citation_urls
citation_urls-IsDistinct urls = (
  collect_urls-IsDistinct [] urls tt,
  (λ y m. collect_urls_all [] urls y m),
  (λ y m. elim (collect_urls-In [] urls y m) [ inl none_seen ↦ absurd none_seen | inr k ↦ k ]),
)
