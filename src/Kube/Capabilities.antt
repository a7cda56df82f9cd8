-- ===== src/Kube/Capabilities.antt =====
-- prepareCapabilities of pkg/kube/container_validate.go.
pub mod Laws
use singularity_cri.Base.{
  ℕ, zero, suc, Option, none, some, List, [], ◌∷◌, ◌==◌, if◌then◌else◌, length,
}
use singularity_cri.Base.Text.{Text, text_eq}
use singularity_cri.Base.Result.{Result, ok, panic, ◌>>=◌}

abbrev pub get_elem? {ℓ} : {A : Type ℓ} → List A → ℕ → Option A
get_elem? [] i = none
get_elem? (x ∷ xs) zero = some x
get_elem? (x ∷ xs) (suc i) = get_elem? xs i

-- append(normalized[:i], normalized[i+1:]...)
unfoldable pub remove_index : List Text → ℕ → List Text
remove_index [] i = []
remove_index (x ∷ xs) zero = xs
remove_index (x ∷ xs) (suc i) = x ∷ remove_index xs i

-- One round of the inner loop; normalized[i] panics where i is out of range.
exclude_one : Text → List Text → ℕ → Option Text → Result (List Text)
exclude_one exclude normalized i none = panic
exclude_one exclude normalized i (some cap) =
    ok (if exclude == cap then remove_index normalized i else normalized)

unfoldable pub exclude_at : List Text → List Text → ℕ → Result (List Text)
unfolding exclude_one
exclude_at [] normalized i = ok normalized
exclude_at (exclude ∷ excluded) normalized i =
    exclude_one exclude normalized i (get_elem? normalized i) >>= λ rest. exclude_at excluded rest i

-- The outer loop, from `n - 1` down to 0.
unfoldable pub exclude_below : List Text → ℕ → List Text → Result (List Text)
exclude_below excluded zero normalized = ok normalized
exclude_below excluded (suc i) normalized =
    exclude_at excluded normalized i >>= λ rest. exclude_below excluded i rest

-- `normalized` are the capabilities that capabilities.Normalize knows.
unfoldable pub prepare_capabilities : List Text → List Text → Result (List Text)
unfolding exclude_below exclude_at
prepare_capabilities normalized excluded = exclude_below excluded (length normalized) normalized
