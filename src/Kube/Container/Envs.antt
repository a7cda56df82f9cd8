-- ===== src/Kube/Container/Envs.antt =====
-- NewContainer of pkg/kube/container.go, once more with the array behind the environment of an image:
-- `execEnvs := info.OciConfig.Env` shares it, and `append` writes to it where it has room.
use native.Mathlib.Decide.{dec_lt}
use singularity_cri.Base.{
  ◌≡◌, Option, none, some, map, refl, sym, ap, ◌∙◌, ℕ, zero, suc, ◌≤◌, ◌<◌, arith, List, [], ◌∷◌,
  ◌++◌, length, ltb, if◌then◌else◌, append-nil, append_assoc,
}
use singularity_cri.Base.Text.{Text}
use singularity_cri.Kube.Members.{take}

-- The environment of a container: the first cells of the image's array, or an array of its own.
pub data Envs : Type 0 where
  shared : ℕ → Envs
  own : List Text → Envs

-- A write to a cell of the array.
pub set : List Text → ℕ → Text → List Text
set [] i v = []
set (x ∷ xs) zero v = v ∷ xs
set (x ∷ xs) (suc i) v = x ∷ set xs i v

-- execEnvs = append(execEnvs, kv), on the array of the image
unfoldable pub append_env : List Text → Envs → Text → List Text × Envs
unfolding set
append_env cells (Envs.shared n) kv =
    if ltb n (length cells)
    then (set cells n kv, Envs.shared (suc n))
    else (cells, Envs.own (take n cells ++ (kv ∷ [])))
append_env cells (Envs.own kvs) kv = (cells, Envs.own (kvs ++ (kv ∷ [])))

unfoldable pub append_envs : List Text → Envs → List Text → List Text × Envs
unfolding append_env
append_envs cells e [] = (cells, e)
append_envs cells e (kv ∷ kvs) =
    let (cells', e') = append_env cells e kv in append_envs cells' e' kvs

-- fmt.Sprintf("%s=%s", kv.Key, kv.Value)
abbrev pub setting : Text × Text → Text
setting kv = kv.0 ++ (b'=' ∷ kv.1)

-- var execEnvs []string, and info.OciConfig.Env where the image has a configuration: a slice of the
-- array, which is not copied
abbrev pub image_envs : Option ℕ → Envs
image_envs none = Envs.own []
image_envs (some n) = Envs.shared n

-- The execEnvs of NewContainer, for the length of the image's slice and the variables of the
-- configuration, with the array after it.
unfoldable pub new_envs : Option ℕ → List Text → List (Text × Text) → List Text × Envs
unfolding append_envs
new_envs image cells envs = append_envs cells (image_envs image) (map setting envs)

-- What a container reads of its environment later, from the array as it is then.
unfoldable pub read_envs : List Text → Envs → List Text
read_envs cells (Envs.shared n) = take n cells
read_envs cells (Envs.own kvs) = kvs

append_env-room :
    (cells : List Text) (n : ℕ) (kv : Text)
    → n < length cells
    → append_env cells (Envs.shared n) kv ≡ (set cells n kv, Envs.shared (suc n))
unfolding append_env
append_env-room cells n kv h = ground arith

append_env-full :
    (cells : List Text) (n : ℕ) (kv : Text)
    → length cells ≤ n
    → append_env cells (Envs.shared n) kv ≡ (cells, Envs.own (take n cells ++ (kv ∷ [])))
unfolding append_env
append_env-full cells n kv h = ground arith

append_envs-room :
    (cells : List Text) (n : ℕ) (kv : Text) (kvs : List Text)
    → n < length cells
    → append_envs cells (Envs.shared n) (kv ∷ kvs)
      ≡ append_envs (set cells n kv) (Envs.shared (suc n)) kvs
unfolding append_envs
append_envs-room cells n kv kvs h =
    ap (λ (p : List Text × Envs). append_envs p.0 p.1 kvs) (append_env-room cells n kv h)

append_envs-full :
    (cells : List Text) (n : ℕ) (kv : Text) (kvs : List Text)
    → length cells ≤ n
    → append_envs cells (Envs.shared n) (kv ∷ kvs)
      ≡ append_envs cells (Envs.own (take n cells ++ (kv ∷ []))) kvs
unfolding append_envs
append_envs-full cells n kv kvs h =
    ap (λ (p : List Text × Envs). append_envs p.0 p.1 kvs) (append_env-full cells n kv h)

length-set : (xs : List Text) (i : ℕ) (v : Text) → length (set xs i v) ≡ length xs
unfolding set
length-set [] i v = refl
length-set (x ∷ xs) zero v = refl
length-set (x ∷ xs) (suc i) v = ap suc (length-set xs i v)

-- A write behind the cells that are taken, and one directly behind them.
take-set_behind : (xs : List Text) (m i : ℕ) (v : Text) → m ≤ i → take m (set xs i v) ≡ take m xs
unfolding set
take-set_behind xs zero i v h = refl
take-set_behind [] (suc m) i v h = refl
take-set_behind (x ∷ xs) (suc m) zero v h = absurd (omega arith)
take-set_behind (x ∷ xs) (suc m) (suc i) v h =
    ap (λ l. x ∷ l) (take-set_behind xs m i v (omega arith))

take-set_last :
    (xs : List Text) (i : ℕ) (v : Text)
    → i < length xs
    → take (suc i) (set xs i v) ≡ take i xs ++ (v ∷ [])
unfolding set
take-set_last [] i v h = absurd (omega arith)
take-set_last (x ∷ xs) zero v h = refl
take-set_last (x ∷ xs) (suc i) v h = ap (λ l. x ∷ l) (take-set_last xs i v (omega arith))

-- Appending keeps the cells of the array up to the end of the slice.
abbrev Fits : ℕ → Envs → Type 0
Fits m (Envs.shared n) = m ≤ n
Fits m (Envs.own kvs) = Unit

take-append_envs :
    (m : ℕ) (cells : List Text) (e : Envs) (kvs : List Text)
    → Fits m e
    → take m (append_envs cells e kvs).0 ≡ take m cells
unfolding append_envs
take-append_envs m cells e [] h = refl
take-append_envs m cells (Envs.own xs) (kv ∷ kvs) h =
    take-append_envs m cells (Envs.own (xs ++ (kv ∷ []))) kvs tt
take-append_envs m cells (Envs.shared n) (kv ∷ kvs) h = elim (dec_lt n (length cells)) [
  | yes room ↦ rw (append_envs-room cells n kv kvs room) (
      take-append_envs m (set cells n kv) (Envs.shared (suc n)) kvs (omega arith)
      ∙ take-set_behind cells m n kv h)
  | no full ↦
      rw (append_envs-full cells n kv kvs (omega arith))
        (take-append_envs m cells (Envs.own (take n cells ++ (kv ∷ []))) kvs tt)
]

-- What a container reads of its own environment after an append is what it read before, followed by
-- what was appended, whether append copies the array or writes to it.
pub read_envs-append_envs :
    (cells : List Text) (e : Envs) (kvs : List Text)
    → let (cells', e') = append_envs cells e kvs in read_envs cells' e' ≡ read_envs cells e ++ kvs
unfolding append_envs read_envs
read_envs-append_envs cells e [] = sym (append-nil (read_envs cells e))
read_envs-append_envs cells (Envs.own xs) (kv ∷ kvs) =
    read_envs-append_envs cells (Envs.own (xs ++ (kv ∷ []))) kvs ∙ append_assoc xs (kv ∷ []) kvs
read_envs-append_envs cells (Envs.shared n) (kv ∷ kvs) = elim (dec_lt n (length cells)) [
  | yes room ↦ rw (append_envs-room cells n kv kvs room) (
      read_envs-append_envs (set cells n kv) (Envs.shared (suc n)) kvs
      ∙ (ap (λ l. l ++ kvs) (take-set_last cells n kv room)
          ∙ append_assoc (take n cells) (kv ∷ []) kvs))
  | no full ↦ rw (append_envs-full cells n kv kvs (omega arith)) (
      read_envs-append_envs cells (Envs.own (take n cells ++ (kv ∷ []))) kvs
      ∙ append_assoc (take n cells) (kv ∷ []) kvs)
]

-- What a container reads of its environment as long as no other one is made: that of the image, and that
-- of the configuration.
pub read_envs-new_envs :
    (image : Option ℕ) (cells : List Text) (envs : List (Text × Text))
    → let (cells', e) = new_envs image cells envs in
      read_envs cells' e ≡ read_envs cells (image_envs image) ++ map setting envs
unfolding new_envs
read_envs-new_envs image cells envs =
    read_envs-append_envs cells (image_envs image) (map setting envs)

overwritten :
    (cells : List Text) (n : ℕ) (first second : Text) (others : List Text)
    → n < length cells
    → let (after_first, e) = append_envs cells (Envs.shared n) (first ∷ []) in
      let (after_second, _) = append_envs after_first (Envs.shared n) (second ∷ others) in
      read_envs after_second e ≡ take n cells ++ (second ∷ [])
unfolding append_envs read_envs
overwritten cells n first second others h = rw (append_envs-room cells n first [] h) (
    rw
      (append_envs-room (set cells n first) n second others
        (omega (arith, length-set cells n first)))
      (take-append_envs (suc n) (set (set cells n first) n second) (Envs.shared (suc n)) others
          (omega arith)
        ∙ (take-set_last (set cells n first) n second (omega (arith, length-set cells n first))
            ∙ ap (λ l. l ++ (second ∷ [])) (take-set_behind cells n n first (omega arith)))))

-- Where the array behind the environment in an image's configuration has room, and NewContainer
-- makes a first container with one variable and then a second one of the same image with one or
-- more: the first container reads its own variable behind those of the image as long as it is
-- alone, and afterwards the first variable of the second one in its place.
pub read_envs-overwritten :
    (cells : List Text) (n : ℕ) (first second : Text × Text) (others : List (Text × Text))
    → n < length cells
    → let (after_first, e) = new_envs (some n) cells (first ∷ []) in
      let (after_second, _) = new_envs (some n) after_first (second ∷ others) in
      (read_envs after_first e ≡ take n cells ++ (setting first ∷ []))
      × (read_envs after_second e ≡ take n cells ++ (setting second ∷ []))
unfolding new_envs read_envs
read_envs-overwritten cells n first second others h = (
  read_envs-new_envs (some n) cells (first ∷ []),
  overwritten cells n (setting first) (setting second) (map setting others) h,
)
