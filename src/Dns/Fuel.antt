-- ===== src/Dns/Fuel.antt =====
-- The rounds that `_read_dns_name` is given are enough, for any message.
use signal_map.Common.{
  ℕ, zero, suc, ◌+◌, ◌-◌, ◌≤◌, ◌<◌, refl, ◌≡◌, ◌≢◌, Option, none, some, List, [], ◌∷◌, arith,
  length, get_elem?, Bool-cases, Option-cases, Result-cases, raised, out_of_fuel, inl, inr, ltb,
  leb, ◌==◌, ◌%◌, ◌*◌,
}
use signal_map.Dns.{read_labels, rounds, read_dns_name, max_hops, first_end}

get_elem?-some :
    {A : Type 0} (xs : List A) (i : ℕ) {x : A} → get_elem? xs i ≡ some x → i < length xs
get_elem?-some [] i h = absurd (ground (arith, h))
get_elem?-some (x ∷ xs) zero h = omega arith
get_elem?-some (x ∷ xs) (suc i) h = omega (arith, get_elem?-some xs i h)

-- after a hop there is one hop less, and a round more for each octet
rounds_hop :
    (hops k size : ℕ)
    → hops + k ≡ max_hops
    → hops + 1 ≤ max_hops
    → (j : ℕ) × ((hops + 1) + j ≡ max_hops) × (rounds k size ≡ (size + 1) + rounds j size)
unfolding rounds
rounds_hop hops zero size h le = absurd (omega (arith, h, le))
rounds_hop hops (suc k) size h le = (k, omega (arith, h), omega arith)

read_labels_ends :
    (fuel : ℕ) (octets : List ℕ) (offset hops k : ℕ) (end : Option ℕ)
    → hops + k ≡ max_hops
    → (length octets - offset) + rounds k (length octets) < fuel
    → read_labels fuel octets offset hops end ≢ raised out_of_fuel
unfolding read_labels
read_labels_ends zero octets offset hops k end h le r = absurd (omega (arith, le))
read_labels_ends (suc fuel) octets offset hops k end h le r =
    elim (Option-cases (get_elem? octets offset)) [
      | inl e ↦ absurd (ground (arith, r, e))
      | inr (n, e) ↦
          let inside = get_elem?-some octets offset e in
          elim (Bool-cases (n == 0)) [
            | inl z ↦ absurd (ground (arith, r, e, z))
            | inr z ↦ elim (Bool-cases (leb 192 n)) [
              | inr label ↦
                  let ends =
                    read_labels_ends fuel octets (offset + 1 + n) hops k end h
                      (omega (arith, le, inside)) in
                  elim (Result-cases (read_labels fuel octets (offset + 1 + n) hops end)) [
                    | inl (x, g) ↦ absurd (ground (arith, ends, r, e, z, label, g))
                    | inr (rest, g) ↦ absurd (ground (arith, r, e, z, label, g))
                  ]
              | inl pointer ↦ elim (Option-cases (get_elem? octets (offset + 1))) [
                | inl f ↦ absurd (ground (arith, r, e, z, pointer, f))
                | inr (low, f) ↦ elim (Bool-cases (ltb max_hops (hops + 1))) [
                  | inl far ↦ absurd (ground (arith, r, e, z, pointer, f, far))
                  | inr near ↦
                      let (j, left, more) =
                        rounds_hop hops k (length octets) h (ground (arith, near)) in
                      read_labels_ends fuel octets (n % 64 * 256 + low) (hops + 1) j
                        (some (first_end end (offset + 2))) left (omega (arith, le, more))
                        (ground (arith, r, e, z, pointer, f, near))
                ]
              ]
            ]
          ]
    ]

-- Reading a name ends, from any offset of any message: it gives a name, or raises an exception of the
-- code's own, for an offset beyond the message or more than 16 compression pointers.
pub read_dns_name_ends :
    (octets : List ℕ) (offset : ℕ) → read_dns_name octets offset ≢ raised out_of_fuel
unfolding read_dns_name
read_dns_name_ends octets offset r =
    let ends =
      read_labels_ends (suc (length octets + rounds max_hops (length octets))) octets offset 0
        max_hops none refl (omega arith) in
    elim (Result-cases
      (read_labels (suc (length octets + rounds max_hops (length octets))) octets offset 0 none)) [
        | inl (x, e) ↦ ends (ground (arith, r, e))
        | inr (name, e) ↦ absurd (ground (arith, r, e))
      ]
