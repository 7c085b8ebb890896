-- ===== src/Throttle/Spacing.antt =====
-- The spacing of two requests for one key.
use mathlib.Core.Path.{subst}
use text.Mathlib.Text.{◌==◌ as str_eq}
use text.Mathlib.TextEquality.{eq_iff}
use signal_map.Common.{
  ℕ, ◌+◌, ◌≤◌, ◌≡◌, refl, String, Option, none, some, List, [], ◌∷◌, arith, max, Bool-cases,
  Option-cases, inl, inr,
}
use signal_map.Throttle.{ThrottleState, next_of, reserve, returned, throttle}

-- a call: its key, its process's clock, and its interval
pub record Call : Type 0 where
  pub key : String
  pub now : ℕ
  pub interval : ℕ

unfoldable pub run_calls : List ThrottleState → List Call → List ThrottleState
run_calls db [] = db
run_calls db (c ∷ cs) = run_calls (throttle db c.key c.now c.interval).0 cs

-- The key's next slot is not before `t`.
abbrev NotBefore : ℕ → Option ℕ → Type 0
NotBefore t none = ⊥
NotBefore t (some next) = t ≤ next

NotBefore-some : (t n : ℕ) (o : Option ℕ) → o ≡ some n → t ≤ n → NotBefore t o
NotBefore-some t n none e h = absurd (ground (arith, e))
NotBefore-some t n (some m) e h = ground (arith, e, h)

NotBefore-le : (t n : ℕ) (o : Option ℕ) → NotBefore t o → o ≡ some n → t ≤ n
NotBefore-le t n none h e = absurd h
NotBefore-le t n (some m) h e = ground (arith, e, h)

slot_after : (o : Option ℕ) (now interval : ℕ) → now + interval ≤ returned o now interval
slot_after none now interval = omega arith
slot_after (some next) now interval = omega arith

reserve-own :
    (db : List ThrottleState) (key : String) (now interval : ℕ)
    → next_of (reserve db key now interval) key ≡ some (returned (next_of db key) now interval)
unfolding reserve
reserve-own [] key now interval = let e = (eq_iff key key).1 refl in ground (arith, e)
reserve-own (r ∷ rs) key now interval = elim (Bool-cases (str_eq r.key key)) [
  | inl e ↦ ground (arith, e)
  | inr e ↦ let rest = reserve-own rs key now interval in ground (arith, e, rest)
]

reserve-NotBefore :
    (t : ℕ) (db : List ThrottleState) (key other : String) (now interval : ℕ)
    → NotBefore t (next_of db key)
    → NotBefore t (next_of (reserve db other now interval) key)
unfolding reserve
reserve-NotBefore t [] key other now interval h = absurd h
reserve-NotBefore t (r ∷ rs) key other now interval h = elim (Bool-cases (str_eq r.key other)) [
  | inl o ↦ elim (Bool-cases (str_eq r.key key)) [
    | inl k ↦
        let e : next_of (r ∷ rs) key ≡ some r.next_available_at = ground (arith, k) in
        let l = NotBefore-le t r.next_available_at _ h e in
        NotBefore-some t (max r.next_available_at now + interval) _ (ground (arith, o, k))
          (omega (arith, l))
    | inr k ↦ subst (NotBefore t) {x = next_of (r ∷ rs) key} (ground (arith, o, k)) h
  ]
  | inr o ↦ elim (Bool-cases (str_eq r.key key)) [
    | inl k ↦ subst (NotBefore t) {x = next_of (r ∷ rs) key} (ground (arith, o, k)) h
    | inr k ↦
        let rest : NotBefore t (next_of rs key) = subst (NotBefore t) (ground (arith, k)) h in
        subst (NotBefore t) {x = next_of (reserve rs other now interval) key} (ground (arith, o, k))
          (reserve-NotBefore t rs key other now interval rest)
  ]
]

run_calls-NotBefore :
    (t : ℕ) (db : List ThrottleState) (key : String) (calls : List Call)
    → NotBefore t (next_of db key)
    → NotBefore t (next_of (run_calls db calls) key)
unfolding run_calls throttle
run_calls-NotBefore t db key [] h = h
run_calls-NotBefore t db key (c ∷ cs) h =
    run_calls-NotBefore t (reserve db c.key c.now c.interval) key cs
      (reserve-NotBefore t db key c.key c.now c.interval h)

-- A request goes out when its process has slept: at the time of its call plus the wait. The clocks of
-- the two processes are ahead of the time `t` by `ahead` and `ahead'`. Of two calls for one key, with any
-- calls for any keys between them, the second goes out at least the first's interval after the first,
-- less what the second's clock is ahead of the first's: a full interval where the clocks agree.
pub throttle_spacing :
    (db : List ThrottleState) (key : String) (t t' ahead ahead' drift interval interval' : ℕ)
    (calls : List Call)
    → ahead' ≤ ahead + drift
    → let (db1, wait) = throttle db key (t + ahead) interval in
      let (db2, wait') = throttle (run_calls db1 calls) key (t' + ahead') interval' in
      t + wait + interval ≤ t' + wait' + drift
unfolding throttle
throttle_spacing db key t t' ahead ahead' drift interval interval' calls skew =
    let now = t + ahead in
    let slot = returned (next_of db key) now interval in
    let own = reserve-own db key now interval in
    let later =
      run_calls-NotBefore slot (reserve db key now interval) key calls
        (NotBefore-some slot slot _ own (omega arith)) in
    let first = slot_after (next_of db key) now interval in
    elim (Option-cases (next_of (run_calls (reserve db key now interval) calls) key)) [
      | inl e ↦ absurd (subst (NotBefore slot) e later)
      | inr (n, e) ↦ let l = NotBefore-le slot n _ later e in rw e (omega (arith, l, first, skew))
    ]
