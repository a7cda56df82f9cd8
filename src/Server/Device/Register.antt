-- ===== src/Server/Device/Register.antt =====
-- How the device plugin asks the kubelet to register it, of pkg/server/device/register.go.
use singularity_cri.Base.{ℕ, zero, suc, ◌+◌}
use singularity_cri.Base.Text.{Text, codes}
use singularity_cri.Base.Result.{Result, ok, err, panic, errorf}
use singularity_cri.Base.Exec.{Exec, ◌>>◌, wrapping}
use singularity_cri.Server.Device.{Gpus}

module _ (G : Gpus) where
  -- defer conn.Close()
  unfoldable pub hanging_up : Result (Unit {0}) × G.World → Result (Unit {0}) × G.World
  hanging_up (answer, w) = (answer, G.hang_up w)

  unfoldable pub asking : Text → Exec G.World (Unit {0})
  unfolding hanging_up
  asking socket w =
      hanging_up
        (wrapping "could not register in kubelet" (G.request (codes "nvidia.com/gpu") socket) w)

  unfoldable pub register : Text → Exec G.World (Unit {0})
  unfolding asking
  register socket = do wrapping "could not dial kubelet" G.dial; asking socket

  -- RegisterInKubelet: the answer of an attempt.
  registered :
      ℕ
      → Result (Unit {0}) × G.World
      → (G.World → Result (Unit {0}) × G.World)
      → Result (Unit {0}) × G.World
  registered i (ok _, w) again = (ok tt, w)
  registered i (err e, w) again = again (G.sleep (i + i) w)
  registered i (panic, w) again = (panic, w)

  -- The rounds left, and the number of the attempt.
  unfoldable pub register_from : Text → ℕ → ℕ → Exec G.World (Unit {0})
  unfolding registered register
  register_from socket zero i w = (err (errorf "failed to register in kubelet"), w)
  register_from socket (suc rounds) i w =
      registered i (register socket w) (register_from socket rounds (suc i))

  unfoldable pub register_in_kubelet : Text → Exec G.World (Unit {0})
  unfolding register_from
  register_in_kubelet socket = register_from socket 4 1
