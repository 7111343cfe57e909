-- ===== src/Base/Files.antt =====
-- What stands at a path, and what the file system does to a write that goes beside its target and
-- is renamed into place.
use scufris.Base.{ℕ, List}

pub data Node : Type 0 where
  absent irregular unreadable : Node
  file : List ℕ → Node

-- A write fails in a step before the rename, which leaves the target as it was; in the sync of the
-- directory, after the rename; or nowhere.
pub data Fault : Type 0 where
  before_rename after_rename nowhere : Fault
