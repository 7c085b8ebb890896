-- ===== src/Quote/Match/Fragments.antt =====
-- What the fragments of all chunks say of the page.
use signal_map.Common.{
  ◌≡◌, refl, sym, true, List, [], ◌∷◌, arith, Text, ok, >>=-eq-ok, ok_injective, inl, inr, ◌⊎◌, In,
  Bool-cases, length, select, All, ◌≤◌, ◌<◌,
}
use signal_map.Quote.Normal.{TextTools}
use signal_map.Quote.Match.{
  Block, ChunkMatch, is_exact, is_found, all_exact, find_chunk, find_chunks,
}
use signal_map.Quote.Match.Found.{
  StandsIn, Resembles, find_chunk-exact, find_chunk-StandsIn, find_chunk-is_found,
}

exact-is_found : (m : ChunkMatch) → is_exact m ≡ true → is_found m ≡ true
unfolding is_exact is_found
exact-is_found m h = ground (arith, h)

pub select-le : (ms : List ChunkMatch) → length (select is_found ms) ≤ length ms
select-le [] = omega arith
select-le (m ∷ ms) = ground (arith, select-le ms)

-- every fragment exact: every one found
pub select-all_exact : (ms : List ChunkMatch) → all_exact ms ≡ true → select is_found ms ≡ ms
select-all_exact [] h = refl
select-all_exact (m ∷ ms) h =
    ground (arith, h, exact-is_found m (ground (arith, h)), select-all_exact ms (ground (arith, h)))

module _ (tools : TextTools) (matching_blocks : Text → Text → List Block) (source_text : Text) where
  find_chunks-cons :
      (c : Text) (cs : List Text) {ms : List ChunkMatch}
      → find_chunks tools matching_blocks (c ∷ cs) source_text ≡ ok ms
      → (m : ChunkMatch) × (rest : List ChunkMatch) × (find_chunk tools matching_blocks c
            source_text
          ≡ ok m)
        × (find_chunks tools matching_blocks cs source_text ≡ ok rest)
        × (ms ≡ m ∷ rest)
  unfolding find_chunks
  find_chunks-cons c cs h =
      let (m, e, f) = >>=-eq-ok (find_chunk tools matching_blocks c source_text) _ h in
      let (rest, g, k) = >>=-eq-ok (find_chunks tools matching_blocks cs source_text) _ f in
      (m, rest, e, g, sym (ok_injective k))

  pub find_chunks-long :
      (c : Text) (cs : List Text) (ms : List ChunkMatch)
      → find_chunks tools matching_blocks (c ∷ cs) source_text ≡ ok ms
      → 0 < length ms
  find_chunks-long c cs ms h =
      let (m, rest, e, f, g) = find_chunks-cons c cs h in rw g (omega arith)

  pub find_chunks-all_exact :
      (cs : List Text) (ms : List ChunkMatch)
      → find_chunks tools matching_blocks cs source_text ≡ ok ms
      → all_exact ms ≡ true
      → All (λ c. StandsIn tools c source_text) cs
  find_chunks-all_exact [] ms h x = tt
  find_chunks-all_exact (c ∷ cs) ms h x =
      let (m, rest, e, f, g) = find_chunks-cons c cs h in
      (
        find_chunk-exact tools matching_blocks c source_text m e (ground (arith, x, g)),
        find_chunks-all_exact cs rest f (ground (arith, x, g)),
      )

  pub find_chunks-StandsIn :
      (cs : List Text) (ms : List ChunkMatch)
      → find_chunks tools matching_blocks cs source_text ≡ ok ms
      → All (λ c. StandsIn tools c source_text) cs
      → all_exact ms ≡ true
  unfolding find_chunks
  find_chunks-StandsIn [] ms h x = ground (arith, h)
  find_chunks-StandsIn (c ∷ cs) ms h (x, xs) =
      let (m, rest, e, f, g) = find_chunks-cons c cs h in
      let p = find_chunk-StandsIn tools matching_blocks c source_text m e x in
      let q = find_chunks-StandsIn cs rest f xs in ground (arith, p, q, g)

  pub find_chunks-is_found :
      (cs : List Text) (ms : List ChunkMatch)
      → find_chunks tools matching_blocks cs source_text ≡ ok ms
      → length (select is_found ms) ≡ length ms
      → All (λ c. StandsIn tools c source_text ⊎ Resembles tools matching_blocks c source_text) cs
  find_chunks-is_found [] ms h x = tt
  find_chunks-is_found (c ∷ cs) ms h x =
      let (m, rest, e, f, g) = find_chunks-cons c cs h in
      let l = select-le rest in
      (
        find_chunk-is_found tools matching_blocks c source_text m e (ground (arith, x, g, l)),
        find_chunks-is_found cs rest f (ground (arith, x, g, l)),
      )

  pub find_chunks-none_found :
      (cs : List Text) (ms : List ChunkMatch)
      → find_chunks tools matching_blocks cs source_text ≡ ok ms
      → select is_found ms ≡ []
      → All (λ c. ¬ StandsIn tools c source_text) cs
  find_chunks-none_found [] ms h x = tt
  find_chunks-none_found (c ∷ cs) ms h x =
      let (m, rest, e, f, g) = find_chunks-cons c cs h in
      (
        (λ y.
            let p =
              exact-is_found m (find_chunk-StandsIn tools matching_blocks c source_text m e y) in
            ground (arith, p, x, g)),
        find_chunks-none_found cs rest f (ground (arith, x, g)),
      )

  pub find_chunks-one_found :
      (cs : List Text) (ms : List ChunkMatch)
      → find_chunks tools matching_blocks cs source_text ≡ ok ms
      → 0 < length (select is_found ms)
      → (c : Text) × In c cs
        × (StandsIn tools c source_text ⊎ Resembles tools matching_blocks c source_text)
  unfolding find_chunks
  find_chunks-one_found [] ms h x = absurd (ground (arith, h, x))
  find_chunks-one_found (c ∷ cs) ms h x =
      let (m, rest, e, f, g) = find_chunks-cons c cs h in
      elim (Bool-cases (is_found m)) [
        | inl here ↦ (c, inl refl, find_chunk-is_found tools matching_blocks c source_text m e here)
        | inr other ↦
            let (d, there, k) = find_chunks-one_found cs rest f (ground (arith, x, g, other)) in
            (d, inr there, k)
      ]

  pub find_chunks-one_missing :
      (cs : List Text) (ms : List ChunkMatch)
      → find_chunks tools matching_blocks cs source_text ≡ ok ms
      → length (select is_found ms) < length ms
      → (c : Text) × In c cs × ¬ StandsIn tools c source_text
  unfolding find_chunks
  find_chunks-one_missing [] ms h x = absurd (ground (arith, h, x))
  find_chunks-one_missing (c ∷ cs) ms h x =
      let (m, rest, e, f, g) = find_chunks-cons c cs h in
      elim (Bool-cases (is_found m)) [
        | inl here ↦
            let (d, there, k) = find_chunks-one_missing cs rest f (ground (arith, x, g, here)) in
            (d, inr there, k)
        | inr other ↦ (
          c,
          inl refl,
          (λ y.
              let p =
                exact-is_found m (find_chunk-StandsIn tools matching_blocks c source_text m e y) in
              ground (arith, p, other)),
        )
      ]
