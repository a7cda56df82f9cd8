-- ===== src/Tests/Pods.antt =====
-- The life of a pod at concrete inputs, and the list of its containers.
use singularity_cri.Base.{refl, [], ◌∷◌}
use singularity_cri.Base.Text.{text_beq, text_eq, codes}
use singularity_cri.Runtime.State.{State}
use singularity_cri.Kube.Pod.{Yard}
use singularity_cri.Kube.Pod.Life.Skipped.{Crowded}
use singularity_cri.Tests.World.{apart, host, base, yard, reports, reports}

-- The engine reports a container that has stopped; the pod's own process exits.
abbrev pub stopped : Yard host
stopped = yard (reports (codes "stopped") (State.exited ∷ []))

pub crowded : Crowded host base (codes "a") (codes "b") stopped
unfolding text_beq
crowded = record {
  rest = codes "c" ∷ [];
  more = 0;
  cells = refl;
  len = refl;
  once = refl;
  distinct = apart (codes "a") (codes "b") refl;
  addressed = λ c. refl;
  first = refl;
  second = refl;
}
