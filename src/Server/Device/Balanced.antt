-- ===== src/Server/Device/Balanced.antt =====
-- How often NewSingularityDevicePlugin of pkg/server/device/device.go leaves NVML initialized.
use singularity_cri.Base.{
  ◌≡◌, ◌⊎◌, inl, inr, arith, refl, ◌∙◌, ℕ, zero, suc, ◌+◌, ◌-◌, List, [], ◌∷◌, map,
}
use singularity_cri.Base.Text.{Text, codes}
use singularity_cri.Base.Result.{Result, ok, err, panic, Error, errorf}
use singularity_cri.Base.Exec.{
  Exec, ◌>>=◌, attempt, raise, wrapping, continue, caught, dropped, Keeps, Keeps->>=,
  Keeps-wrapping,
}
use singularity_cri.Server.Device.Register.{
  register, asking, hanging_up, register_from, register_in_kubelet,
}
use singularity_cri.Server.Device.{
  Gpus, Gpu, Plugin, Watched, new_plugin, get_devices, devices_from, watched_with, watch_all,
  monitor_gpus, shutting_down, with_devices, or_unable, no_gpus, unable_to_load,
}

-- What counts how often NVML is initialized: nvml.Init adds one where it succeeds, nvml.Shutdown takes one
-- away, and no other call changes it.
pub record Counts (G : Gpus) (inits : G.World → ℕ) : Type 0 where
  pub init :
      (w : G.World)
      → inits (G.init w).1 ≡ (elim (G.init w).0 [ ok _ ↦ suc (inits w) | _ ↦ inits w ])
  pub shutdown : (w : G.World) → inits (G.shutdown w).1 ≡ inits w - 1
  pub look_path : (w : G.World) → inits (G.look_path w).1 ≡ inits w
  pub build_config : (w : G.World) → inits (G.build_config w).1 ≡ inits w
  pub driver_version : (w : G.World) → inits (G.driver_version w).1 ≡ inits w
  pub device_count : (w : G.World) → inits (G.device_count w).1 ≡ inits w
  pub device : (i : ℕ) (w : G.World) → inits (G.device i w).1 ≡ inits w
  pub new_events : (w : G.World) → inits (G.new_events w) ≡ inits w
  pub delete_events : (w : G.World) → inits (G.delete_events w) ≡ inits w
  pub watch : (id : Text) (w : G.World) → inits (G.watch id w).1 ≡ inits w
  pub dial : (w : G.World) → inits (G.dial w).1 ≡ inits w
  pub request : (r s : Text) (w : G.World) → inits (G.request r s w).1 ≡ inits w
  pub hang_up : (w : G.World) → inits (G.hang_up w) ≡ inits w
  pub sleep : (n : ℕ) (w : G.World) → inits (G.sleep n w) ≡ inits w

-- What is left of NVML after a call that was to initialize it: nothing more after an error other than
-- ErrNoGPUs.
abbrev pub After {ℓ} : {A : Type ℓ} → Result A → ℕ → ℕ → Type 0
After (ok _) before after = after ≡ suc before
After (err e) before after = (e ≡ no_gpus) ⊎ (after ≡ before)
After panic before after = Unit

module _ (G : Gpus) (inits : G.World → ℕ) (C : Counts G inits) where
  devices_from-inits : (n i : ℕ) (w : G.World) → inits (devices_from G n i w).1 ≡ inits w
  unfolding devices_from
  devices_from-inits zero i w = refl
  devices_from-inits (suc n) i w =
      ground (arith, C.device i w, devices_from-inits n (suc i) (G.device i w).1)

  get_devices-inits : Keeps inits (get_devices G)
  unfolding get_devices
  get_devices-inits =
      Keeps->>= inits _ _ (Keeps-wrapping inits _ _ C.device_count) (λ n. devices_from-inits n 0)

  watched_with-inits :
      (id : Text) (ill : List Text) (a : Watched) (w : G.World)
      → inits (watched_with G id ill a w).1 ≡ inits w
  unfolding watched_with
  watched_with-inits id ill Watched.watched w = refl
  watched_with-inits id ill Watched.not_supported w = refl
  watched_with-inits id ill (Watched.not_watched e) w = C.delete_events w

  watch_all-inits : (ids ill : List Text) (w : G.World) → inits (watch_all G ids ill w).1 ≡ inits w
  unfolding watch_all
  watch_all-inits [] ill w = refl
  watch_all-inits (id ∷ ids) ill w =
      Keeps->>= inits (λ v. watched_with G id ill (G.watch id v).0 (G.watch id v).1) _
        (λ v. watched_with-inits id ill (G.watch id v).0 (G.watch id v).1 ∙ C.watch id v)
        (λ more. watch_all-inits ids more) w

  register-inits : (s : Text) → Keeps inits (register G s)
  unfolding register asking hanging_up
  register-inits s =
      Keeps->>= inits _ _ (Keeps-wrapping inits "could not dial kubelet" _ C.dial) λ _ w.
        C.hang_up _
        ∙ Keeps-wrapping inits "could not register in kubelet"
            (G.request (codes "nvidia.com/gpu") s) (C.request (codes "nvidia.com/gpu") s) w

  register_from-inits :
      (s : Text) (n i : ℕ) (w : G.World) → inits (register_from G s n i w).1 ≡ inits w
  unfolding register_from
  register_from-inits s zero i w = refl
  register_from-inits s (suc n) i w = ground (
    arith,
    register-inits s w,
    C.sleep (i + i) (register G s w).1,
    register_from-inits s n (suc i) (G.sleep (i + i) (register G s w).1),
  )

  pub register_in_kubelet-inits :
      (s : Text) (w : G.World) → inits (register_in_kubelet G s w).1 ≡ inits w
  unfolding register_in_kubelet
  register_in_kubelet-inits s w = register_from-inits s 4 1 w

  monitor_gpus-inits : (ids : List Text) (w : G.World) → inits (monitor_gpus G ids w).1 ≡ inits w
  unfolding monitor_gpus
  monitor_gpus-inits ids w = watch_all-inits ids [] (G.new_events w) ∙ C.new_events w

  -- The error behind the shut-down.
  dropped-After :
      {A : Type 0} (e : Error) (f : A → Exec G.World Plugin) (n : ℕ) (r : Result (Unit {0}))
      (v : G.World)
      → inits v ≡ n
      → let (q, u) = continue (continue (dropped (r, v)) (λ _. raise {A = A} e)) f in
        After q n (inits u)
  dropped-After e f n (ok _) v p = inr p
  dropped-After e f n (err x) v p = inr p
  dropped-After e f n panic v p = tt

  -- A call whose error shuts NVML down, which is initialized once more than at the start.
  shutting_down-After :
      {A : Type 0} (e : Error) (m : Exec G.World A) (f : A → Exec G.World Plugin) (n : ℕ)
      → Keeps inits m
      → ((a : A) (v : G.World) → inits v ≡ suc n → After (f a v).0 n (inits (f a v).1))
      → (w : G.World) → inits w ≡ suc n
      → let (r, v) = (attempt m >>= λ a. shutting_down G e a >>= f) w in After r n (inits v)
  unfolding shutting_down
  shutting_down-After {A} e m f n k l w h = from (m w).0 (m w).1 (k w ∙ h)
    where
      from :
          (a : Result A) (v : G.World)
          → inits v ≡ suc n
          → let (r, u) = continue (caught (a, v)) (λ b. shutting_down G e b >>= f) in
            After r n (inits u)
      from (ok a) v p = l a v p
      from (err x) v p =
          dropped-After e f n (G.shutdown v).0 (G.shutdown v).1 (omega (arith, C.shutdown v))
      from panic v p = tt

  with_devices-After :
      (conf_dir : Text) (gs : List Gpu) (w : G.World) (n : ℕ)
      → inits w ≡ suc n
      → After (with_devices G conf_dir gs w).0 n (inits (with_devices G conf_dir gs w).1)
  unfolding with_devices
  with_devices-After conf_dir [] w n h = inl refl
  with_devices-After conf_dir (g ∷ gs) w n h =
      shutting_down-After (errorf "could not start GPU monitoring")
        (monitor_gpus G (map (λ (d : Gpu). d.uuid) (g ∷ gs))) _ n
        (monitor_gpus-inits (map (λ (d : Gpu). d.uuid) (g ∷ gs))) (λ a v p. p) w h

  -- A call before NVML is initialized.
  Keeps-After :
      {A : Type 0} (m : Exec G.World A) (f : A → Exec G.World Plugin)
      → Keeps inits m
      → ((a : A) (v : G.World) → After (f a v).0 (inits v) (inits (f a v).1))
      → (w : G.World) → let (r, v) = (m >>= f) w in After r (inits w) (inits v)
  Keeps-After {A} m f k l w = from (m w).0 (m w).1 (k w)
    where
      from :
          (a : Result A) (v : G.World)
          → inits v ≡ inits w
          → let (r, u) = continue (a, v) f in After r (inits w) (inits u)
      from (ok a) v p = rw (← p) (l a v)
      from (err x) v p = inr p
      from panic v p = tt

  init-After :
      (f : Exec G.World Plugin)
      → ((v : G.World) (n : ℕ) → inits v ≡ suc n → After (f v).0 n (inits (f v).1))
      → (w : G.World)
      → let (r, v) = (attempt G.init >>= λ loaded. or_unable G loaded >>= λ _. f) w in
        After r (inits w) (inits v)
  unfolding or_unable
  init-After f l w = from (G.init w).0 (G.init w).1 (C.init w)
    where
      from :
          (a : Result (Unit {0})) (v : G.World)
          → inits v ≡ (elim a [ ok _ ↦ suc (inits w) | _ ↦ inits w ])
          → let (r, u) = continue (caught (a, v)) (λ b. or_unable G b >>= λ _. f) in
            After r (inits w) (inits u)
      from (ok a) v p = l v (inits w) p
      from (err x) v p = inr p
      from panic v p = tt

  -- NewSingularityDevicePlugin leaves NVML initialized once more where it gives a plugin, and as often
  -- as before where it fails with an error other than ErrNoGPUs.
  pub new_plugin-After :
      (w : G.World) → After (new_plugin G w).0 (inits w) (inits (new_plugin G w).1)
  unfolding new_plugin
  new_plugin-After =
      Keeps-After (wrapping "could not find singularity on this machine" G.look_path) _
        (Keeps-wrapping inits _ _ C.look_path)
        λ _.
          Keeps-After (wrapping "could not get build config" G.build_config) _
            (Keeps-wrapping inits _ _ C.build_config)
            λ conf_dir. init-After _ λ v n p.
              shutting_down-After unable_to_load G.driver_version _ n C.driver_version
                (λ _.
                  shutting_down-After (errorf "could not get available devices") (get_devices G) _ n
                    get_devices-inits λ gs t k. with_devices-After conf_dir gs t n k)
                v p
