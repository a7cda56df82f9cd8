-- ===== src/Kube/Container/Life/Start.antt =====
-- Start of a container.
use singularity_cri.Base.{◌≡◌, ◌≢◌, nat_eq, List, arith}
use singularity_cri.Base.Text.{Text}
use singularity_cri.Base.Result.{ok, err, sentinel, Sentinel}
use singularity_cri.Runtime.Host.{Host}
use singularity_cri.Kube.Types.{Scene}
use singularity_cri.Kube.Container.{update_state}
use singularity_cri.Kube.Container.Status.{ContainerState, state_of}
use singularity_cri.Kube.Container.Life.{start}

module _ (H : Host) (base : List Text) where
  -- A container that the runtime does not report as created is not started: Start returns
  -- ErrContainerNotCreated and has done nothing but ask for the state.
  pub start_refused :
      (s t : Scene H)
      → update_state H base s ≡ (ok tt, t)
      → state_of t.cont ≢ ContainerState.container_created
      → start H base s ≡ (err (sentinel Sentinel.container_not_created), t)
  unfolding start
  start_refused s t h ne = ground arith
