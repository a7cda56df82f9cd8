-- ===== src/Server/Runtime/Handlers.antt =====
-- What the handlers of pods and containers promise, and what they leave behind.
use singularity_cri.Base.Exec.{Exec}
use singularity_cri.Image.Info.{Info}
use singularity_cri.Base.{◌≡◌, arith, ℕ, nat_eq, true, false, List, ◌&&◌, ◌||◌, ◌↔◌, length}
use singularity_cri.Base.Text.{Text, text_eq}
use singularity_cri.Base.Result.{ok, err, panic, Error, is_index_not_found}
use singularity_cri.Patricia.{Trie, IsLawful}
use singularity_cri.TruncIndex.{check_key}
use singularity_cri.TruncIndex.Keys.{IsConsistent}
use singularity_cri.TruncIndex.Ids.{HasLength}
use singularity_cri.Runtime.Host.{Host}
use singularity_cri.Index.Images
use singularity_cri.Index.Containers as ContainerIndex
use singularity_cri.Index.Containers.Laws.{find-remove}
use singularity_cri.Kube.Types.{ContainerConfig, Container, Pod}
use singularity_cri.Network.{Cni}
use singularity_cri.Server.Runtime.{Node, find_pod, find_container, in_container}
use singularity_cri.Server.Runtime.Containers.{remove_container, remove_found}
use singularity_cri.Server.Runtime.Create.{
  create_container, with_image, create_in, create_from, is_refused,
}
use singularity_cri.Server.Runtime.Service.{Streams, check_streams, exec}

module _ {H : Host} {N : Cni H} {TI : Trie ℕ} {TP TC : Trie Text} (base : List Text) where
  -- A CreateContainer whose request is not refused at once panics, where the look-up of the image
  -- fails with an error other than ErrNotFound and the pod is found.
  pub create_container-panics :
      (order : List Text → List Text) (translate : Container → Pod → Info → Exec H.World (Unit {0}))
      (pod_id p : Text) (config : ContainerConfig) (e : Error) (s : Node N TI TP TC)
      → is_refused config ≡ false
      → Images.find TI s.images config.image ≡ err e
      → is_index_not_found e ≡ false
      → (find_pod pod_id s).0 ≡ ok p
      → (create_container base order translate pod_id config s).0 ≡ panic
  unfolding create_container with_image create_in create_from find_pod
  create_container-panics order translate pod_id p config e s r f n k = ground arith

  -- A RemoveContainer of a whole ID that the index finds, where it succeeds: a second one succeeds
  -- too and changes nothing, not even on the host. The index is consistent, over a lawful trie,
  -- its IDs and this one have one length, and this one passes the checks.
  pub remove_container-remove_container :
      (L : IsLawful TC) (n : ℕ) (id : Text) (s : Node N TI TP TC)
      → IsConsistent TC s.containers
      → HasLength TC n s.containers
      → length id ≡ n
      → check_key id ≡ ok tt
      → ContainerIndex.find TC s.containers id ≡ ok id
      → (remove_container base id s).0 ≡ ok tt
      → remove_container base id (remove_container base id s).1
        ≡ (ok tt, (remove_container base id s).1)
  unfolding remove_container remove_found in_container
  remove_container-remove_container L n id s inv sized size legal f h =
      ground (arith, find-remove TC L n s.containers inv sized id size legal)

  -- Exec passes its checks with a container exactly when the container is found, one of the three
  -- streams is asked for, and a terminal is not asked for together with stderr.
  pub exec_iff :
      (id c : Text) (r : Streams) (s : Node N TI TP TC)
      → ((exec base id r s).0 ≡ ok c) ↔ (
          ((find_container id s).0 ≡ ok c)
          × (((r.stdin || (r.stdout || r.stderr)) ≡ true) × ((r.tty && r.stderr) ≡ false)))
  unfolding exec check_streams find_container
  exec_iff id c r s = ground arith
