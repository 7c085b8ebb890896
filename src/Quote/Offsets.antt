-- ===== src/Quote/Offsets.antt =====
-- The offset map of `normalize`: one offset for each character, in order, all in the original.
use mathlib.Core.Path.{subst}
use signal_map.Common.{
  ℕ, zero, suc, ◌+◌, ◌-◌, ◌≤◌, ◌<◌, ◌≡◌, refl, Bool, true, false, Option, none, some, List, [], ◌∷◌,
  ◌++◌, map, arith, if_both, length, Text, take, get_elem?,
}
use signal_map.Quote.Normal.{
  TextTools, normalize, pieces, Piece, is_blank, decode_entities, expand_char, expand, collapse,
  entity_at, is_space_text,
}
use signal_map.Quote.Order.{
  Within, Within-from, Within-to, Within-same, Within-left, Within-right, strip-infix, Singles,
  Singles-left, Singles-right, length-Singles,
}

module _ (tools : TextTools) where
  decode_entities-Within :
      (i skip : ℕ) (t : Text) → Within i (i + length t) (decode_entities tools i skip t)
  unfolding decode_entities
  decode_entities-Within i skip [] = tt
  decode_entities-Within i (suc k) (c ∷ t) =
      Within-to (i + 1) i (i + 1 + length t) (i + length (c ∷ t)) _ (omega arith) (omega arith)
        (decode_entities-Within (i + 1) k t)
  decode_entities-Within i zero (c ∷ t) =
      let later : (k : ℕ) → Within i (i + length (c ∷ t)) (decode_entities tools (i + 1) k t) = λ k.
        Within-to (i + 1) i (i + 1 + length t) (i + length (c ∷ t)) _ (omega arith) (omega arith)
          (decode_entities-Within (i + 1) k t) in
      elim (entity_at (c ∷ t))
        as (λ (m : Option ℕ). Within i (i + length (c ∷ t)) (elim m [
          | none ↦ (c, i) ∷ decode_entities tools (i + 1) 0 t
          | some n ↦
              map (λ d. (d, i)) (tools.unescape (take n (c ∷ t)))
              ++ decode_entities tools (i + 1) (n - 1) t
        ])) [
          | none ↦ (omega arith, omega arith, later 0)
          | some n ↦
              Within-same (λ d. d) i (i + length (c ∷ t)) (tools.unescape (take n (c ∷ t))) _
                (omega arith) (later (n - 1))
        ]

  expand-Within : (lo hi : ℕ) (ps : List (ℕ × ℕ)) → Within lo hi ps → Within lo hi (expand tools ps)
  unfolding expand
  expand-Within lo hi [] w = tt
  expand-Within lo hi ((c, i) ∷ ps) (l, u, w) = Within-from lo i hi _ l (
      Within-same tools.lower i hi (expand_char tools c) (expand tools ps) u
        (expand-Within i hi ps w))

  collapse-Within :
      (b : Bool) (lo hi : ℕ) (ps : List Piece)
      → Within lo hi ps
      → Within lo hi (collapse tools b ps)
  unfolding collapse
  collapse-Within b lo hi [] w = tt
  collapse-Within b lo hi ((s, i) ∷ ps) (l, u, w) =
      if_both (Within lo hi) (is_space_text tools s)
        (if_both (Within lo hi) b (Within-from lo i hi _ l (collapse-Within true i hi ps w))
          (l, u, collapse-Within true i hi ps w))
        (l, u, collapse-Within false i hi ps w)

  pieces-Within : (t : Text) → Within 0 (length t) (pieces tools t)
  unfolding pieces
  pieces-Within t =
      let all = collapse-Within false 0 (length t) _ (
        expand-Within 0 (length t) _ (
          Within-to 0 0 (0 + length t) (length t) _ (omega arith) (omega arith)
            (decode_entities-Within 0 0 t))) in
      let (pre, post, e) =
        strip-infix is_blank (collapse tools false (expand tools (decode_entities tools 0 0 t))) in
      Within-left 0 (length t) (pieces tools t) post
        (Within-right 0 (length t) pre (pieces tools t ++ post) (subst (Within 0 (length t)) e all))

  -- Each character that the text is expanded to has one character in lower case.
  abbrev pub IsLowered : Text → Type 0
  IsLowered t = Singles (expand tools (decode_entities tools 0 0 t))

  -- so where `str.lower` gives one character for each
  module _ (single : (c : ℕ) → length (tools.lower c) ≡ 1) where
    Singles-same :
        (i : ℕ) (cs : Text) (ps : List Piece)
        → Singles ps
        → Singles (map (λ d. (tools.lower d, i)) cs ++ ps)
    Singles-same i [] ps h = h
    Singles-same i (c ∷ cs) ps h = (single c, Singles-same i cs ps h)

    expand-Singles : (ps : List (ℕ × ℕ)) → Singles (expand tools ps)
    unfolding expand
    expand-Singles [] = tt
    expand-Singles ((c, i) ∷ ps) =
        Singles-same i (expand_char tools c) (expand tools ps) (expand-Singles ps)

    pub single-IsLowered : (t : Text) → IsLowered t
    single-IsLowered t = expand-Singles (decode_entities tools 0 0 t)

  collapse-Singles : (b : Bool) (ps : List Piece) → Singles ps → Singles (collapse tools b ps)
  unfolding collapse
  collapse-Singles b [] h = tt
  collapse-Singles b ((s, i) ∷ ps) (h, t) =
      if_both Singles (is_space_text tools s)
        (if_both Singles b (collapse-Singles true ps t) (refl, collapse-Singles true ps t))
        (h, collapse-Singles false ps t)

  pieces-Singles : (t : Text) → IsLowered t → Singles (pieces tools t)
  unfolding pieces
  pieces-Singles t single =
      let all = collapse-Singles false _ single in
      let (pre, post, e) =
        strip-infix is_blank (collapse tools false (expand tools (decode_entities tools 0 0 t))) in
      Singles-left (pieces tools t) post
        (Singles-right pre (pieces tools t ++ post) (subst Singles e all))

  -- Where `str.lower` gives one character for each, the normal form has one offset for each character.
  pub normalize-length :
      (t : Text)
      → IsLowered t
      → length (normalize tools t).text ≡ length (normalize tools t).offsets
  unfolding normalize
  normalize-length t single = length-Singles (pieces tools t) (pieces-Singles t single)

  -- The offsets of the normal form do not fall, and lie in the original.
  offsets_at :
      (lo hi : ℕ) (ps : List Piece) (i a : ℕ)
      → Within lo hi ps
      → get_elem? (map (λ (p : Piece). p.1) ps) i ≡ some a
      → (lo ≤ a) × (a < hi)
  offsets_at lo hi [] i a w h = absurd (ground (arith, h))
  offsets_at lo hi ((s, x) ∷ ps) zero a (l, u, w) h = ground (arith, h)
  offsets_at lo hi ((s, x) ∷ ps) (suc i) a (l, u, w) h =
      let (p, q) = offsets_at x hi ps i a w h in (omega (arith, p, l), q)

  offsets_rise :
      (lo hi : ℕ) (ps : List Piece) (i j a b : ℕ)
      → Within lo hi ps
      → i ≤ j
      → get_elem? (map (λ (p : Piece). p.1) ps) i ≡ some a
      → get_elem? (map (λ (p : Piece). p.1) ps) j ≡ some b
      → a ≤ b
  offsets_rise lo hi [] i j a b w le h k = absurd (ground (arith, h))
  offsets_rise lo hi ((s, x) ∷ ps) zero zero a b w le h k = ground (arith, h, k)
  offsets_rise lo hi ((s, x) ∷ ps) zero (suc j) a b (l, u, w) le h k =
      ground (arith, h, offsets_at x hi ps j b w k)
  offsets_rise lo hi ((s, x) ∷ ps) (suc i) zero a b w le h k = absurd (omega (arith, le))
  offsets_rise lo hi ((s, x) ∷ ps) (suc i) (suc j) a b (l, u, w) le h k =
      offsets_rise x hi ps i j a b w (omega (arith, le)) h k

  pub normalize-offsets :
      (t : Text) (i j a b : ℕ)
      → i ≤ j
      → get_elem? (normalize tools t).offsets i ≡ some a
      → get_elem? (normalize tools t).offsets j ≡ some b
      → a ≤ b
  unfolding normalize
  normalize-offsets t i j a b = offsets_rise 0 (length t) (pieces tools t) i j a b (pieces-Within t)

  pub normalize-offset :
      (t : Text) (i a : ℕ) → get_elem? (normalize tools t).offsets i ≡ some a → a < length t
  unfolding normalize
  normalize-offset t i a h = (offsets_at 0 (length t) (pieces tools t) i a (pieces-Within t) h).1
