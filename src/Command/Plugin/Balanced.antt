-- ===== src/Command/Plugin/Balanced.antt =====
-- How often startDevicePlugin of cmd/server/main.go leaves NVML initialized.
use singularity_cri.Base.{◌≡◌, ◌⊎◌, inl, inr, arith, ◌∙◌, ℕ, suc}
use singularity_cri.Base.Text.{Text, codes}
use singularity_cri.Base.Result.{Result, ok, err, panic, wrapf}
use singularity_cri.Base.Exec.{
  Exec, ◌>>=◌, ◌>>◌, attempt, raise, pure, modify, Keeps, continue, caught, dropped,
}
use singularity_cri.Server.Device.{Gpus, Plugin, new_plugin}
use singularity_cri.Server.Device.Register.{register_in_kubelet}
use singularity_cri.Server.Device.Balanced.{
  Counts, After, new_plugin-After, register_in_kubelet-inits,
}
use singularity_cri.Command.Plugin.{
  Sockets, is_unsupported, gpu_not_supported, cleanup, made, listening, registered,
  start_device_plugin,
}

-- What startDevicePlugin leaves of NVML: nothing more after an error other than errGPUNotSupported.
abbrev pub Left : Result Plugin → ℕ → ℕ → Type 0
Left (ok _) before after = after ≡ suc before
Left (err e) before after = (e ≡ gpu_not_supported) ⊎ (after ≡ before)
Left panic before after = Unit

module _ (G : Gpus) (K : Sockets G.World) (inits : G.World → ℕ) (C : Counts G inits)
    (create : (path : Text) → Keeps inits (K.create path))
    (close : (w : G.World) → inits (K.close w) ≡ inits w) where
  -- The clean-up before what a failed step leaves.
  cleanup-Left :
      (m : Exec G.World (Unit {0})) (f : Exec G.World Plugin) (n : ℕ)
      → ((u : G.World) → inits u ≡ n → let (q, z) = (m >> f) u in Left q n (inits z))
      → (v : G.World) → inits v ≡ suc n
      → let (q, z) = (cleanup G K >> m >> f) v in Left q n (inits z)
  unfolding cleanup
  cleanup-Left m f n l v h = from (G.shutdown v).0 (G.shutdown v).1 (omega (arith, C.shutdown v))
    where
      from :
          (r : Result (Unit {0})) (u : G.World)
          → inits u ≡ n
          → let (q, z) = continue (continue (dropped (r, u)) (λ _. m)) (λ _. f) in
            Left q n (inits z)
      from (ok _) u k = l u k
      from (err e) u k = l u k
      from panic u k = tt

  -- The registration, of a plugin that has been made.
  register_with : Plugin → Exec G.World Plugin
  register_with p = do
    answer ← attempt (register_in_kubelet G (codes "singularity.sock"))
    registered G K answer
    pure p

  register_with-Left :
      (p : Plugin) (n : ℕ) (w : G.World)
      → inits w ≡ suc n
      → Left (register_with p w).0 n (inits (register_with p w).1)
  unfolding register_with registered cleanup
  register_with-Left p n w h =
      from (register_in_kubelet G _ w).0 (register_in_kubelet G _ w).1
        (register_in_kubelet-inits G inits C _ w ∙ h)
    where
      from :
          (r : Result (Unit {0})) (v : G.World)
          → inits v ≡ suc n
          → let (q, u) = continue (caught (r, v)) (λ answer. registered G K answer >> pure p) in
            Left q n (inits u)
      from (ok _) v k = k
      from (err e) v k =
          cleanup-Left
            (do modify K.close; raise (wrapf "could not register Singularity device plugin" e))
            (pure p) n (λ u q. inr (close u ∙ q)) v k
      from panic v k = tt

  listen_with : Plugin → Exec G.World Plugin
  listen_with p = do
    bound ← attempt (K.create (codes "/var/lib/kubelet/device-plugins/singularity.sock"))
    listening G K bound
    register_with p

  listen_with-Left :
      (p : Plugin) (n : ℕ) (w : G.World)
      → inits w ≡ suc n
      → Left (listen_with p w).0 n (inits (listen_with p w).1)
  unfolding listen_with listening cleanup
  listen_with-Left p n w h = from (K.create _ w).0 (K.create _ w).1 (create _ w ∙ h)
    where
      from :
          (r : Result (Unit {0})) (v : G.World)
          → inits v ≡ suc n
          → let (q, u) =
              continue (caught (r, v)) (λ bound. listening G K bound >> register_with p) in
            Left q n (inits u)
      from (ok _) v k = register_with-Left p n v k
      from (err e) v k =
          cleanup-Left (raise (wrapf "could not start device plugin listener" e)) (register_with p)
            n (λ u q. inr q) v k
      from panic v k = tt

  -- A startDevicePlugin that succeeds leaves NVML initialized once more than before, and one that
  -- fails, with an error other than errGPUNotSupported, as often as before. What counts this goes
  -- up by one where nvml.Init succeeds and not otherwise, down by one with each nvml.Shutdown, and
  -- is not changed by any other call.
  pub start_device_plugin-Left :
      (w : G.World)
      → Left (start_device_plugin G K w).0 (inits w) (inits (start_device_plugin G K w).1)
  unfolding start_device_plugin made listen_with register_with is_unsupported
  start_device_plugin-Left w =
      from (new_plugin G w).0 (new_plugin G w).1 (new_plugin-After G inits C w)
    where
      from :
          (r : Result Plugin) (v : G.World)
          → After r (inits w) (inits v)
          → let (q, u) = continue (caught (r, v)) (λ created. made G K created >>= listen_with) in
            Left q (inits w) (inits u)
      from (ok p) v k = listen_with-Left p (inits w) v k
      from (err e) v (inl k) = inl (rw k)
      from (err e) v (inr k) = inr k
      from panic v k = tt
