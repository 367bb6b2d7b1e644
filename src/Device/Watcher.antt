-- ===== src/Device/Watcher.antt =====
-- src/device/virtual_input_device.rs, the task that `runner` spawns: the map from device paths to the
-- abort channels of their reader threads. A channel is the number of its thread.
use map2_legacy.Base.{
  ℕ, suc, List, [], ◌∷◌, ◌++◌, Bool, true, false, ◌||◌, Option, none, some, Text, ◌==◌, text_eq,
  insert, lookup, if◌then◌else◌,
}

-- What the watcher uses of the regex library and of the devices: whether a path matches one of the
-- patterns, and whether `runner_it` can open and grab the device of a path, which may change with
-- the number of threads started so far.
pub record Devices : Type 0 where
  pub patterns : List (Text → Bool)
  pub grabs : ℕ → Text → Bool

abbrev pub any_match : List (Text → Bool) → Text → Bool
any_match [] path = false
any_match (p ∷ ps) path = p path || any_match ps path

-- `HashMap::remove`, which gives the map that is left.
abbrev pub remove : Text → List (Text × ℕ) → List (Text × ℕ)
remove path [] = []
remove path (entry ∷ m) = let rest = remove path m in if entry.0 == path then rest else entry ∷ rest

-- The map, the number of threads started, those told to stop, and whether the task has ended by the
-- error of a device that could not be grabbed.
pub record Watcher : Type 0 where
  pub device_map : List (Text × ℕ)
  pub started : ℕ
  pub told : List ℕ
  pub ended : Bool

abbrev pub new_watcher : Watcher
new_watcher = record { device_map = []; started = 0; told = []; ended = false }

pub data FsWatchEvent : Type 0 where
  add_device remove_device : Text → FsWatchEvent

-- `runner_it` for a path that could be opened, and the entry in the map.
abbrev pub start_reader : Text → Watcher → Watcher
start_reader path w = record w {
  device_map = insert path w.started w.device_map;
  started = suc w.started;
}

-- The first loop, over the devices that are there: one that cannot be grabbed is left out.
unfoldable pub open_all : Devices → List Text → Watcher → Watcher
open_all d [] w = w
open_all d (path ∷ paths) w =
    let next = if d.grabs w.started path then start_reader path w else w in open_all d paths next

abbrev pub tell : Option ℕ → Text → Watcher → Watcher
tell none path w = w
tell (some thread) path w = record w {
  device_map = remove path w.device_map;
  told = w.told ++ thread ∷ [];
}

-- The arms of the second loop.
unfoldable pub on_fs_event : Devices → Watcher → FsWatchEvent → Watcher
on_fs_event d w (add_device path) =
    if any_match d.patterns path
    then (if d.grabs w.started path then start_reader path w else record w { ended = true })
    else w
on_fs_event d w (remove_device path) = tell (lookup path w.device_map) path w

abbrev pub unless_ended : Bool → Watcher → Watcher → Watcher
unless_ended true w w' = w
unless_ended false w w' = w'

-- The second loop, until it ends.
unfoldable pub follow : Devices → Watcher → List FsWatchEvent → Watcher
unfolding on_fs_event
follow d w [] = w
follow d w (e ∷ es) = follow d (unless_ended w.ended w (on_fs_event d w e)) es
