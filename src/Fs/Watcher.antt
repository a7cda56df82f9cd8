-- ===== src/Fs/Watcher.antt =====
-- The watcher of pkg/fs/watcher.go: how it is made, and the goroutine of Watch, which takes events of
-- fsnotify and sends those that it supports over a channel without a buffer. The library and the context
-- act in a step that they choose.
pub mod Forwarded
use singularity_cri.Base.{◌≡◌, Bool, true, false, Option, none, some, List, [], ◌∷◌, ◌++◌}
use singularity_cri.Base.Text.{Text}
use singularity_cri.Base.Result.{Result, ok, err, Error}
use singularity_cri.Base.Exec.{Exec, ◌>>=◌, ◌>>◌, pure, crash, modify, raise, wrapping, attempt}
use singularity_cri.Base.Result.{panic, wrapf}

-- The functions of fsnotify that NewWatcher calls.
pub record Notify : Type 1 where
  pub World : Type 0
  pub new_watcher : Exec World (Unit {0})
  pub add : Text → Exec World (Unit {0})
  pub close : World → World

module _ (F : Notify) where
  -- The answer of Add: a file that cannot be added closes the watcher.
  added : Result (Unit {0}) → Exec F.World (Unit {0})
  added (ok _) = pure tt
  added (err e) = do modify F.close; raise (wrapf "could not add file to file watcher" e)
  added panic = crash

  add_all : List Text → Exec F.World (Unit {0})
  unfolding added
  add_all [] = pure tt
  add_all (f ∷ fs) = do answer ← attempt (F.add f); added answer; add_all fs

  -- NewWatcher
  unfoldable pub new_watcher : List Text → Exec F.World (Unit {0})
  unfolding add_all
  new_watcher files = do wrapping "could not create file watcher" F.new_watcher; add_all files

-- fsnotify.Event: its name, and the two bits of Op that are looked at.
pub record Event : Type 0 where
  pub name : Text
  pub create : Bool
  pub remove : Bool

pub data Op : Type 0 where
  op_unsupported op_remove op_create : Op

pub record WatchEvent : Type 0 where
  pub path : Text
  pub op : Op

-- if event.Op&fsnotify.Create == fsnotify.Create { … }, then the same for Remove
unfoldable pub op_of : Event → Op
op_of e = elim e.remove [
  | true ↦ Op.op_remove
  | false ↦ elim e.create [ true ↦ Op.op_create | false ↦ Op.op_unsupported ]
]

-- Where the goroutine stands: at the select, at `events <- …`, or behind its return.
pub data Place : Type 0 where
  at_select : Place
  at_send : WatchEvent → Place
  returned : Place

-- The goroutine, the events that it has taken from fsnotify, and those that the reader of its channel has.
-- The channel is closed as soon as the goroutine has returned.
pub record Watch : Type 0 where
  pub place : Place
  pub arrived : List Event
  pub received : List WatchEvent

abbrev pub started : Watch
started = record { place = Place.at_select; arrived = []; received = [] }

-- An event at the select: on to the send, or `continue`.
after_op : Text → Op → Place
after_op name Op.op_unsupported = Place.at_select
after_op name Op.op_remove = Place.at_send (record { path = name; op = Op.op_remove })
after_op name Op.op_create = Place.at_send (record { path = name; op = Op.op_create })

unfoldable pub handle : Event → Watch → Watch
unfolding after_op op_of
handle e w = record w { place = after_op e.name (op_of e); arrived = w.arrived ++ (e ∷ []) }

pub data Step (w : Watch) : Watch → Type 0 where
  -- <-w.Events
  event : (e : Event) → w.place ≡ Place.at_select → Step w (handle e w)
  -- <-w.Errors
  failed : w.place ≡ Place.at_select → Step w w
  -- <-ctx.Done()
  context_done : w.place ≡ Place.at_select → Step w (record w { place = Place.returned })
  -- the reader takes what is sent
  taken :
      (e : WatchEvent)
      → w.place ≡ Place.at_send e
      → Step w (record w { place = Place.at_select; received = w.received ++ (e ∷ []) })

pub data Reach (u : Watch) : Watch → Type 0 where
  here : Reach u u
  next : {v w : Watch} → Reach u v → Step v w → Reach u w
