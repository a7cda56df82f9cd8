-- ===== src/Kube/Oci/Numbers.antt =====
-- Go's printing of integers: fmt's %d, and strconv.FormatInt.
use Prim.Native.Nat.{◌/◌, ◌%◌, ◌^◌}
use singularity_cri.Base.{
  true, false, ℕ, zero, suc, ◌+◌, ◌-◌, ltb, [], ◌∷◌, ◌==◌, nat_eq, if◌then◌else◌,
}
use singularity_cri.Base.Text.{Text}

-- '0' to '9', then 'a' onwards
abbrev pub digit : ℕ → ℕ
digit d = if ltb d 10 then 48 + d else 87 + d

-- The digits of a number in front of those of what is left; 64 digits do for 64 bits in every base.
unfoldable pub digits : ℕ → ℕ → ℕ → Text → Text
digits base zero n rest = rest
digits base (suc fuel) n rest = elim (n / base == 0) [
  | true ↦ digit (n % base) ∷ rest
  | false ↦ digits base fuel (n / base) (digit (n % base) ∷ rest)
]

-- strconv.FormatInt on the bits of an int64
unfoldable pub format_int : ℕ → ℕ → Text
unfolding digits
format_int base bits =
    if ltb bits (2 ^ 63) then digits base 64 bits [] else b'-' ∷ digits base 64 (2 ^ 64 - bits) []

abbrev pub decimal : ℕ → Text
decimal = format_int 10
