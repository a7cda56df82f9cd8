-- ===== src/Server/Device/Monitor.antt =====
-- The goroutine of monitorGPUs of pkg/server/device/nvml.go, ListAndWatch and Shutdown of device.go, and
-- the channel of unhealthy devices between them. NVML, the streams of the kubelet and who comes first are
-- chosen by a step.
use singularity_cri.Base.{
  ◌≡◌, ℕ, nat_eq, suc, ◌+◌, ◌<◌, Bool, true, false, Option, none, some, List, [], ◌∷◌, ◌++◌, ◌==◌,
  ◌||◌, if◌then◌else◌, is_nil, length,
}
use singularity_cri.Base.Text.{Text}
use singularity_cri.Base.Dict.{Dict, insert}
use singularity_cri.Server.Device.{Plugin, Health}

-- What WaitForEvent gives where it has no error: an error code with the device, or with none.
pub record Event : Type 0 where
  pub code : ℕ
  pub uuid : Option Text

-- The devices that the goroutine sends for an event.
unfoldable pub made_ill : List Text → Event → List Text
made_ill ids e =
    if (e.code == 31) || ((e.code == 43) || (e.code == 45))
    then []
    else elim e.uuid [ none ↦ ids | some uuid ↦ if is_nil uuid then ids else uuid ∷ [] ]

-- Where the goroutine stands: at the select, in WaitForEvent, at `ill <- …` with the device to send and
-- those after it, or behind its return, which deletes the event set.
pub data Place : Type 0 where
  at_select at_wait returned : Place
  at_send : Text → List Text → Place

-- Behind a send, or an event: the next device to send, or the select.
unfoldable pub sending : List Text → Place
sending [] = Place.at_select
sending (id ∷ ids) = Place.at_send id ids

-- The goroutine, the plugin with what waits in the channel, whether `done` is closed and the server takes
-- calls, and how many calls of ListAndWatch are in their loop; `heard` and `listed` are the events that
-- came and the devices that ListAndWatch received.
pub record Monitor : Type 0 where
  pub place : Place
  pub plugin : Plugin
  pub done : Bool
  pub served : Bool
  pub listeners : ℕ
  pub heard : List Event
  pub listed : List Text

-- A plugin that NewSingularityDevicePlugin has just made, and its server.
abbrev pub started : Plugin → Monitor
started p = record {
  place = Place.at_select;
  plugin = p;
  done = false;
  served = true;
  listeners = 0;
  heard = [];
  listed = [];
}

unfoldable pub hear : List Text → Event → Monitor → Monitor
unfolding made_ill sending
hear ids e m = record m { place = sending (made_ill ids e); heard = m.heard ++ (e ∷ []) }

unfoldable pub push : Text → List Text → Monitor → Monitor
unfolding sending
push id ids m = record m {
  place = sending ids;
  plugin = record m.plugin { ill = m.plugin.ill ++ (id ∷ []) };
}

-- dp.hospital[devID] = k8sDP.Unhealthy
unfoldable pub fall_ill : Text → Dict Health → Dict Health
fall_ill id hospital = insert id Health.unhealthy hospital

-- The stream takes what is sent, or it does not and the call ends.
unfoldable pub stays : Bool → ℕ
stays true = 1
stays false = 0

-- One round of ListAndWatch, of a call beside `others` ones.
unfoldable pub list : Text → List Text → ℕ → Bool → Monitor → Monitor
unfolding fall_ill stays
list id rest others sent m = record m {
  plugin = record m.plugin { ill = rest; hospital = fall_ill id m.plugin.hospital };
  listeners = stays sent + others;
  listed = m.listed ++ (id ∷ []);
}

-- The channel has room for each of the devices once.
pub data Step (ids : List Text) (m : Monitor) : Monitor → Type 0 where
  -- <-done, and default
  quits :
      m.place ≡ Place.at_select → m.done ≡ true → Step ids m (record m { place = Place.returned })
  waits :
      m.place ≡ Place.at_select → m.done ≡ false → Step ids m (record m { place = Place.at_wait })
  -- WaitForEvent: a timeout or another error, and an event
  failed : m.place ≡ Place.at_wait → Step ids m (record m { place = Place.at_select })
  event : (e : Event) → m.place ≡ Place.at_wait → Step ids m (hear ids e m)
  -- ill <- devID
  sends :
      (id : Text) (rest : List Text)
      → m.place ≡ Place.at_send id rest
      → length m.plugin.ill < length ids
      → Step ids m (push id rest m)
  -- ListAndWatch: a call sends the devices; a call in its loop ends, or takes a device
  called :
      (sent : Bool)
      → m.served ≡ true
      → Step ids m (record m { listeners = stays sent + m.listeners })
  ended :
      (others : ℕ)
      → m.listeners ≡ suc others
      → m.done ≡ true
      → Step ids m (record m { listeners = others })
  lists :
      (id : Text) (rest : List Text) (others : ℕ) (sent : Bool)
      → m.listeners ≡ suc others
      → m.plugin.ill ≡ id ∷ rest
      → Step ids m (list id rest others sent m)
  -- Stop of the server, and Shutdown; a second Shutdown panics
  stopped : m.served ≡ true → Step ids m (record m { served = false })
  shut_down : m.done ≡ false → Step ids m (record m { done = true })

pub data Reach (ids : List Text) (m : Monitor) : Monitor → Type 0 where
  here : Reach ids m m
  next : {n o : Monitor} → Reach ids m n → Step ids n o → Reach ids m o
