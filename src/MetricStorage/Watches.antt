-- ===== src/MetricStorage/Watches.antt =====
-- `ensureWatches`: a kind is watched once, as soon as its definition is there.
pub mod Once
use ceilometer_operator.Prelude.{
  [], String, Bool, false, Option, none, some, List, ◌∷◌, ◌++◌, ◌||◌, if◌then◌else◌, str_eq,
}
use ceilometer_operator.Cluster.{Cluster}
use ceilometer_operator.MetricStorage.Calls.{Calls}

-- the loop over `r.Watching`
unfoldable pub is_watched : String → List String → Bool
is_watched name [] = false
is_watched name (item ∷ items) = str_eq item name || is_watched name items

module _ (k : Cluster) (c : Calls k) where
  -- the name is added if the watch has started
  started : String → Option k.Error × k.World → Option k.Error × k.World
  started name (some e, w) = (some e, w)
  started name (none, w) = (none, c.set_watching (c.watching w ++ name ∷ []) w)

  -- the definition was asked for
  defined : String → Option k.Error × k.World → Option k.Error × k.World
  unfolding started
  defined name (some e, w) = (some e, w)
  defined name (none, w) = started name (c.controller_watch name w)

  unfoldable pub ensure_watches : String → k.World → Option k.Error × k.World
  unfolding is_watched defined
  ensure_watches name w =
      if is_watched name (c.watching w) then (none, w) else defined name (c.get_definition name w)
