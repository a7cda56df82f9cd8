-- ===== src/Kube/Oci/Mounts/Propagation.antt =====
-- The propagation of the root of a container.
use singularity_cri.Base.{
  is_some, ◌∙◌, Bool-cases, inl, inr, ◌≡◌, refl, true, false, Bool, List, [], ◌∷◌, arith,
}
use singularity_cri.Base.Text.{Text, codes, text_eq, text_beq}
use singularity_cri.Slice.{contains}
use singularity_cri.Base.Result.{Result, ok, err, panic}
use singularity_cri.Base.Exec.{first-ok, then_lem}
use singularity_cri.Runtime.Host.{Host}
use singularity_cri.Kube.Types.{Pod, Security, Mount, Propagation as MountPropagation}
use singularity_cri.Kube.Oci.{Translator, Draft, SpecMount, Call, does}
use singularity_cri.Kube.Oci.Mounts.{
  volume, all_of, mount_source, escalate, add_volume, add_volumes, bind_file, dns_mount, shielded,
  configure_mounts, rprivate, rslave, rshared, option_of,
}

-- The stronger of two propagations: shared before slave before private.
abbrev pub stronger : MountPropagation → MountPropagation → MountPropagation
stronger MountPropagation.bidirectional q = MountPropagation.bidirectional
stronger MountPropagation.host_to_container MountPropagation.bidirectional =
    MountPropagation.bidirectional
stronger MountPropagation.host_to_container q = MountPropagation.host_to_container
stronger MountPropagation.propagation_private q = q

-- The strongest propagation that the mounts ask for.
unfoldable pub strongest : MountPropagation → List Mount → MountPropagation
strongest p [] = p
strongest p (m ∷ ms) = strongest (stronger p m.propagation) ms

-- The calls that configureMounts makes of the generator beside SetLinuxRootPropagation.
abbrev pub sets_no_propagation : Call → Bool
sets_no_propagation (Call.set_root_propagation p) = false
sets_no_propagation _ = true

-- The texts that SetLinuxRootPropagation of the generator takes; it refuses others.
abbrev pub propagations : List Text
propagations =
    []
    ∷ codes "private"
    ∷ codes "rprivate"
    ∷ codes "slave"
    ∷ codes "rslave"
    ∷ codes "shared"
    ∷ codes "rshared"
    ∷ codes "unbindable"
    ∷ codes "runbindable"
    ∷ []

-- SetLinuxRootPropagation of a text that it takes sets the propagation of the root, and nothing else
-- does.
pub record KeepsPropagation {H : Host} (T : Translator H) : Type 0 where
  pub set :
      (p : Text) (g : T.Gen)
      → contains propagations p ≡ true
      → T.root_propagation (T.call (Call.set_root_propagation p) g) ≡ p
  pub others :
      (c : Call) (g : T.Gen)
      → sets_no_propagation c ≡ true
      → T.root_propagation (T.call c g) ≡ T.root_propagation g
  pub mounts :
      (ms : List SpecMount) (g : T.Gen)
      → T.root_propagation (T.change_mounts ms g) ≡ T.root_propagation g

module _ {H : Host} (T : Translator H) (L : KeepsPropagation T) where
  mount_source-gen : (path : Text) (s : Draft T) → (mount_source T path s).1.gen ≡ s.gen
  unfolding mount_source
  mount_source-gen path s = ground arith

  escalate-stronger :
      (p q : MountPropagation) (s : Draft T)
      → T.root_propagation s.gen ≡ option_of p
      → T.root_propagation (escalate T q s).gen ≡ option_of (stronger p q)
  unfolding escalate text_beq
  escalate-stronger MountPropagation.propagation_private MountPropagation.propagation_private s h =
      h
  escalate-stronger MountPropagation.host_to_container MountPropagation.propagation_private s h = h
  escalate-stronger MountPropagation.bidirectional MountPropagation.propagation_private s h = h
  escalate-stronger MountPropagation.propagation_private MountPropagation.host_to_container s h =
      rw h (L.set rslave s.gen refl)
  escalate-stronger MountPropagation.host_to_container MountPropagation.host_to_container s h =
      rw h h
  escalate-stronger MountPropagation.bidirectional MountPropagation.host_to_container s h = rw h h
  escalate-stronger MountPropagation.propagation_private MountPropagation.bidirectional s h =
      L.set rshared s.gen refl
  escalate-stronger MountPropagation.host_to_container MountPropagation.bidirectional s h =
      L.set rshared s.gen refl
  escalate-stronger MountPropagation.bidirectional MountPropagation.bidirectional s h =
      L.set rshared s.gen refl

  add_volume-stronger :
      (p : MountPropagation) (m : Mount) (s : Draft T)
      → T.root_propagation s.gen ≡ option_of p
      → (add_volume T m s).0 ≡ ok tt
      → T.root_propagation (add_volume T m s).1.gen ≡ option_of (stronger p m.propagation)
  unfolding add_volume
  add_volume-stronger p m s h done =
      let found = mount_source T m.host_path s in
      let same : T.root_propagation found.1.gen ≡ option_of p =
        rw (mount_source-gen m.host_path s) h in
      go found.0 refl (escalate-stronger p m.propagation found.1 same)
    where
      go :
          (r : Result Text)
          → (mount_source T m.host_path s).0 ≡ r
          → T.root_propagation (escalate T m.propagation (mount_source T m.host_path s).1).gen
            ≡ option_of (stronger p m.propagation)
          → T.root_propagation (add_volume T m s).1.gen ≡ option_of (stronger p m.propagation)
      go (ok source) e q = ground (
        arith,
        e,
        q,
        L.others (Call.add_mount (volume m source))
            (escalate T m.propagation (mount_source T m.host_path s).1).gen refl,
      )
      go (err x) e q = cc
      go panic e q = cc

  add_volumes-strongest :
      (p : MountPropagation) (ms : List Mount) (s : Draft T)
      → T.root_propagation s.gen ≡ option_of p
      → (add_volumes T ms s).0 ≡ ok tt
      → T.root_propagation (add_volumes T ms s).1.gen ≡ option_of (strongest p ms)
  unfolding add_volumes strongest
  add_volumes-strongest p [] s h done = h
  add_volumes-strongest p (m ∷ ms) s h done =
      let one = add_volume T m in
      let rest = add_volumes T ms in
      rw (then_lem one rest s done) (
        add_volumes-strongest (stronger p m.propagation) ms (one s).1
          (add_volume-stronger p m s h (first-ok one rest s done))
          (rw (then_lem one rest s done) at done))

  all_of-propagation :
      (f : Text → Call) (paths : List Text) (s : Draft T)
      → ((path : Text) → sets_no_propagation (f path) ≡ true)
      → T.root_propagation (all_of T f paths s).gen ≡ T.root_propagation s.gen
  unfolding all_of
  all_of-propagation f [] s h = refl
  all_of-propagation f (path ∷ paths) s h =
      all_of-propagation f paths (does T (f path) s) h ∙ L.others (f path) s.gen (h path)

  shielded-propagation :
      (security : Security) (s : Draft T)
      → T.root_propagation (shielded T security s).gen ≡ T.root_propagation s.gen
  unfolding shielded
  shielded-propagation security s = elim (Bool-cases security.privileged) [
    | inl e ↦ rw e (L.mounts _ s.gen)
    | inr e ↦ rw e (
        all_of-propagation Call.add_readonly_path security.readonly_paths _ (λ path. refl)
        ∙ all_of-propagation Call.add_masked_path security.masked_paths s (λ path. refl))
  ]

  dns_mount-propagation :
      (p : Pod) (s : Draft T) → T.root_propagation (dns_mount T p s).gen ≡ T.root_propagation s.gen
  unfolding dns_mount bind_file
  dns_mount-propagation p s = elim (Bool-cases (is_some p.config.dns)) [
    | inl e ↦ rw e (L.others _ _ refl)
    | inr e ↦ rw e
  ]

  -- Where configureMounts succeeds, the propagation of the root is the strongest that the mounts
  -- ask for, shared before slave before private, whatever their order; it is private where they
  -- ask for none. In the generator SetLinuxRootPropagation of one of the texts that it takes sets
  -- the propagation of the root, and no other call changes it.
  pub root_propagation-configure_mounts :
      (p : Pod) (security : Security) (ms : List Mount) (s : Draft T)
      → (configure_mounts T p security ms s).0 ≡ ok tt
      → T.root_propagation (configure_mounts T p security ms s).1.gen
        ≡ option_of (strongest MountPropagation.propagation_private ms)
  unfolding configure_mounts bind_file text_beq
  root_propagation-configure_mounts p security ms s done =
      add_volumes-strongest MountPropagation.propagation_private ms _
        (shielded-propagation security _
          ∙ L.others _ _ refl
          ∙ L.others _ _ refl
          ∙ dns_mount-propagation p _
          ∙ L.set rprivate s.gen refl)
        done
