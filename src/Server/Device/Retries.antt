-- ===== src/Server/Device/Retries.antt =====
-- How often RegisterInKubelet of pkg/server/device/register.go asks the kubelet.
use singularity_cri.Base.{
  ◌≡◌, refl, ◌∙◌, arith, ℕ, zero, suc, ◌+◌, ◌≤◌, Bool, true, false, ◌⊎◌, inr,
}
use singularity_cri.Base.Text.{Text, codes}
use singularity_cri.Base.Result.{Result, ok, err, panic, is_ok}
use singularity_cri.Base.Exec.{wrapping, continue, Keeps, Keeps-wrapping}
use singularity_cri.Server.Device.{Gpus}
use singularity_cri.Server.Device.Register.{
  register, register_from, register_in_kubelet, asking, hanging_up,
}

abbrev is_panic : Result (Unit {0}) → Bool
is_panic panic = true
is_panic _ = false

module _ (G : Gpus) (socket : Text) (asked : G.World → ℕ)
    (once : (w : G.World) → asked (G.dial w).1 ≡ suc (asked w))
    (requested : (resource : Text) (w : G.World) → asked (G.request resource socket w).1 ≡ asked w)
    (closed : (w : G.World) → asked (G.hang_up w) ≡ asked w)
    (asleep : (seconds : ℕ) (w : G.World) → asked (G.sleep seconds w) ≡ asked w)
    (dials : (w : G.World) → is_panic (G.dial w).0 ≡ false)
    (answers : (resource : Text) (w : G.World)
      → is_panic (G.request resource socket w).0 ≡ false) where
  asking-asked : Keeps asked (asking G socket)
  unfolding asking hanging_up
  asking-asked w =
      closed _
      ∙ Keeps-wrapping asked "could not register in kubelet"
          (G.request (codes "nvidia.com/gpu") socket) (requested (codes "nvidia.com/gpu")) w

  asking-answers : (w : G.World) → is_panic (asking G socket w).0 ≡ false
  unfolding asking hanging_up
  asking-answers w =
      from (G.request (codes "nvidia.com/gpu") socket w).0
        (G.request (codes "nvidia.com/gpu") socket w).1 (answers (codes "nvidia.com/gpu") w)
    where
      from :
          (r : Result (Unit {0})) (v : G.World)
          → is_panic r ≡ false
          → is_panic (wrapping "could not register in kubelet" (λ _. (r, v)) w).0 ≡ false
      from (ok _) v h = h
      from (err _) v h = h
      from panic v h = h

  -- One attempt dials once, and does not panic.
  register-asked :
      (w : G.World)
      → (asked (register G socket w).1 ≡ suc (asked w)) × (is_panic (register G socket w).0 ≡ false)
  unfolding register
  register-asked w = from (G.dial w).0 (G.dial w).1 (once w) (dials w)
    where
      from :
          (r : Result (Unit {0})) (v : G.World)
          → asked v ≡ suc (asked w)
          → is_panic r ≡ false
          → let (a, u) =
              continue (wrapping "could not dial kubelet" (λ _. (r, v)) w) (λ _. asking G socket) in
            (asked u ≡ suc (asked w)) × (is_panic a ≡ false)
      from (ok _) v a h = (asking-asked v ∙ a, asking-answers v)
      from (err _) v a h = (a, refl)
      from panic v a h = absurd cc

  -- After the rounds left: no more attempts than rounds, and exactly as many where the answer is an error.
  register_from-bounded :
      (rounds i : ℕ) (w : G.World)
      → (asked (register_from G socket rounds i w).1 ≤ asked w + rounds)
        × ((is_ok (register_from G socket rounds i w).0 ≡ true)
            ⊎ (asked (register_from G socket rounds i w).1 ≡ asked w + rounds))
  unfolding register_from
  register_from-bounded zero i w = (omega arith, inr (omega arith))
  register_from-bounded (suc rounds) i w = ground (
    arith,
    register-asked w,
    asleep (i + i) (register G socket w).1,
    register_from-bounded rounds (suc i) (G.sleep (i + i) (register G socket w).1),
  )

  -- RegisterInKubelet asks the kubelet at most four times, and exactly four times where it does
  -- not succeed. What counts the attempts goes up by one with each dial, is changed by nothing
  -- else, and none of its calls panics.
  pub register_in_kubelet-bounded :
      (w : G.World)
      → (asked (register_in_kubelet G socket w).1 ≤ asked w + 4)
        × ((is_ok (register_in_kubelet G socket w).0 ≡ true)
            ⊎ (asked (register_in_kubelet G socket w).1 ≡ asked w + 4))
  unfolding register_in_kubelet
  register_in_kubelet-bounded w = register_from-bounded 4 1 w
