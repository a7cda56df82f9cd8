-- ===== src/Tests/Containers.antt =====
-- The life of a container at concrete inputs.
use singularity_cri.Base.{arith, ◌≢◌, ◌≡◌, refl, true, false, some, none, [], ◌∷◌}
use singularity_cri.Base.Text.{Text, codes}
use singularity_cri.Base.Result.{Result, Error, ok, err, wrapf, errorf}
use singularity_cri.Runtime.State.{State}
use singularity_cri.Runtime.Host.{Ran}
use singularity_cri.Runtime.Client
use singularity_cri.Kube.Types.{Scene}
use singularity_cri.Kube.Container.{kill, terminate}
use singularity_cri.Kube.Container.Life.{create, remove}
use singularity_cri.Kube.Container.Life.Create.{create-fails}
use singularity_cri.Slice.{contains, count}
use singularity_cri.Kube.Container.{update_state}
use singularity_cri.Kube.Container.Kept.{Kept}
use singularity_cri.Kube.Container.Exited.{terminate-exited}
use singularity_cri.Kube.Container.Life.Remove.{IsGone, remove-IsGone, remove-fails, remove_missing}
use singularity_cri.Tests.World.{host, base, as_listed, scene, reports, translate}

err-ne-ok : {r : Result (Unit {0})} (e : Error) → r ≡ err e → r ≢ ok tt
err-ne-ok e h k = cc

abbrev created : Scene host
created = scene (reports (codes "created") (State.creating ∷ State.created ∷ []))

abbrev crashing : Scene host
crashing = scene (reports (codes "stopped") (State.creating ∷ State.exited ∷ []))

create-fails_example :
    ((create host base as_listed translate [] crashing).1.pod ≡ crashing.pod)
    × (contains (create host base as_listed translate [] crashing).1.info.used_by (codes "a")
        ≡ false)
unfolding create count singularity_cri.Kube.Validate.validate_container
    singularity_cri.Kube.Files.full_log_path singularity_cri.Kube.Files.add_oci_bundle Client.create
    singularity_cri.Kube.Container.expect_state kill Client.delete
    singularity_cri.Kube.Files.collect_trash singularity_cri.Kube.Files.cleanup_files
create-fails_example =
    create-fails host base as_listed translate [] crashing
      (wrapf "could not spawn container" (errorf "unexpected container state")) (λ keys x. refl)
      (λ who. omega arith) refl

abbrev removable : Scene host
removable = scene (reports (codes "running") (State.exited ∷ []))

remove-IsGone_example : IsGone host base removable (remove host base removable).1
unfolding remove update_state Client.state kill singularity_cri.Runtime.State.status_to_state
    Client.kill singularity_cri.Kube.Container.expect_state Client.delete
    singularity_cri.Kube.Container.close_stdin singularity_cri.Kube.Files.collect_trash
    singularity_cri.Kube.Files.cleanup_files count
remove-IsGone_example =
    remove-IsGone host base removable (omega arith) (λ c. ground arith) (λ who. ground arith) refl
      refl

-- The container does not exit when it is killed.
abbrev stubborn : Scene host
stubborn = scene (reports (codes "running") (State.running ∷ []))

remove-fails_example : Kept stubborn (remove host base stubborn).1
unfolding remove update_state Client.state kill singularity_cri.Runtime.State.status_to_state
    Client.kill singularity_cri.Kube.Container.expect_state
remove-fails_example =
    remove-fails host base stubborn
      (wrapf "could not kill container" (errorf "unexpected container state")) refl

abbrev missing : Scene host
missing = scene (record { ran = Ran.exited (codes "no instance found with name a"); coming = [] })

remove_missing_example :
    ((remove host base missing).0 ≢ ok tt) × ((remove host base missing).1.cont.is_removed ≡ false)
unfolding Client.state singularity_cri.Base.Text.contains_text
remove_missing_example = remove_missing host base missing refl refl

terminate-exited_example : (terminate host base 0 removable).1.cont.runtime_state ≡ State.exited
unfolding terminate kill Client.kill singularity_cri.Kube.Container.expect_state
terminate-exited_example = terminate-exited host base 0 removable refl
