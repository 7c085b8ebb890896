-- ===== src/ProviderErrors/Billing.antt =====
-- When an exception is a billing failure, and what each category does to the item.
use signal_map.Common.{
  ℕ, ◌<◌, ◌≡◌, ◌⊎◌, inl, inr, String, true, some, arith, Bool-cases, Option-cases,
}
use signal_map.Store.{billing}
use signal_map.ProviderErrors.{ProviderError, status_of, names_billing, classify_provider_error}

-- The status is 402, or the text names an empty account and the status, if any, is below 500.
abbrev pub IsBilling : (String → String) → (ℕ → String) → ProviderError → Type 0
IsBilling lower show exc =
    (status_of exc ≡ some 402)
    ⊎ ((names_billing lower show exc ≡ true) × ((n : ℕ) → status_of exc ≡ some n → n < 500))

-- An exception is a billing failure exactly when its status is 402, or its text has a billing marker
-- and it has no status of 500 or more: a 403 with such a text is billing, a 503 with it is not.
pub classify_provider_error-IsBilling :
    (lower : String → String) (show : ℕ → String) (exc : ProviderError)
    → (classify_provider_error lower show exc ≡ billing → IsBilling lower show exc)
      × (IsBilling lower show exc → classify_provider_error lower show exc ≡ billing)
unfolding classify_provider_error
classify_provider_error-IsBilling lower show exc = elim (Option-cases (status_of exc)) [
  | inl e ↦ elim (Bool-cases (names_billing lower show exc)) [
    | inl t ↦ ((λ h. inr (t, (λ n h'. ground (arith, e, h')))), (λ b. ground (arith, e, t)))
    | inr f ↦ (
      (λ h. absurd (ground (arith, h, e, f))),
      (λ b. elim b [
        | inl s ↦ ground (arith, s, e, f)
        | inr (t, low) ↦ absurd (ground (arith, t, f))
      ]),
    )
  ]
  | inr (n, e) ↦ elim (Bool-cases (names_billing lower show exc)) [
    | inl t ↦ (
      (λ h. ground (arith, h, e, t)),
      (λ b. elim b [
        | inl s ↦ ground (arith, s, e, t)
        | inr (_, low) ↦ ground (arith, low n e, t, e)
      ]),
    )
    | inr f ↦ (
      (λ h. ground (arith, h, e, f)),
      (λ b. elim b [
        | inl s ↦ ground (arith, s, e, f)
        | inr (t, low) ↦ absurd (ground (arith, t, f))
      ]),
    )
  ]
]
