-- ===== src/ProviderErrors.antt =====
-- app/services/provider_errors.py: the category of an exception of a provider's adapter. An exception
-- is what the code reads of it; `str.lower` on Unicode text is a parameter.
pub mod Billing
use signal_map.Common.{
  ℕ, String, Bool, true, false, ◌&&◌, ◌||◌, not, Option, none, some, List, [], ◌∷◌, ◌++◌, any, leb,
  ltb, ◌==◌, if◌then◌else◌, is_none,
}
use text.Mathlib.Text.{find?}
use Prim.Native.String
use signal_map.Store.{ErrorCategory, billing, rate_limit, auth, transient, invalid_request, unknown}

-- an attribute that may be missing, a number, a text, or something dumped as JSON
pub data Attr : Type 0 where
  absent : Attr
  int : ℕ → Attr
  str : String → Attr
  other : String → Attr

pub record ProviderError : Type 0 where
  pub message : String  -- str(exc)
  pub status_code : Attr
  pub code : Attr
  pub fields : List Attr  -- message, status, body, details
  pub is_transport_failure : Bool

unfoldable pub status_of : ProviderError → Option ℕ
status_of exc = elim exc.status_code [
  | int n ↦ some n
  | _ ↦ elim exc.code [ int n ↦ some n | _ ↦ none ]
]

-- the texts that `_searchable_text` joins; `show` is how a number is dumped as JSON
abbrev code_text : Attr → List String
code_text (str s) = s ∷ []
code_text _ = []

abbrev field_texts : (ℕ → String) → List Attr → List String
field_texts show [] = []
field_texts show (absent ∷ fs) = field_texts show fs
field_texts show (int n ∷ fs) = show n ∷ field_texts show fs
field_texts show (str s ∷ fs) = s ∷ field_texts show fs
field_texts show (other s ∷ fs) = s ∷ field_texts show fs

-- " ".join(parts)
abbrev join_spaces : List String → String
join_spaces [] = ""
join_spaces (s ∷ []) = s
join_spaces (s ∷ t ∷ r) = String.◌++◌ s (String.◌++◌ " " (join_spaces (t ∷ r)))

-- `marker in text`
abbrev contains : String → String → Bool
contains text marker = not (is_none (find? text marker))

abbrev billing_markers : List String
billing_markers =
    "insufficient_quota" ∷ "credit balance" ∷ "insufficient balance" ∷ "credits are depleted"
    ∷ "out of credits" ∷ "purchase more credits" ∷ []

module _ (lower : String → String) (show : ℕ → String) where
  unfoldable pub searchable_text : ProviderError → String
  searchable_text exc =
      lower (join_spaces ((exc.message ∷ code_text exc.code) ++ field_texts show exc.fields))

  -- any(marker in _searchable_text(exc) for marker in _BILLING_MARKERS)
  unfoldable pub names_billing : ProviderError → Bool
  unfolding searchable_text
  names_billing exc = any (contains (searchable_text exc)) billing_markers

  -- `status == n` and `lo <= status < hi`, false without a status
  abbrev has_status : Option ℕ → (ℕ → Bool) → Bool
  has_status none p = false
  has_status (some n) p = p n

  unfoldable pub classify_provider_error : ProviderError → ErrorCategory
  unfolding status_of
  classify_provider_error exc =
      let status = status_of exc in
      if has_status status (λ n. n == 402)
      then billing
      else if has_status status (λ n. leb 500 n)
      then transient
      else if names_billing exc
      then billing
      else if has_status status (λ n. (n == 401) || (n == 403))
      then auth
      else if has_status status (λ n. n == 429)
      then rate_limit
      else if has_status status (λ n. n == 408)
      then transient
      else if has_status status (λ n. leb 400 n && ltb n 500)
      then invalid_request
      else if exc.is_transport_failure
      then transient
      else unknown
