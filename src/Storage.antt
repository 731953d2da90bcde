-- ===== src/Storage.antt =====
-- base/microservice/pkg/common/storage/storage.go: the in-memory store. Its methods hold the lock
-- for their whole body, so each is one step.
pub mod Sessions
mod Tests
use caaspay_core.Prelude.{
  Option, none, some, Text, codes, ◌++◌, Error, errorf, Result, ok, err, text_eq, if◌then◌else◌,
  Bool, true, false,
}
use caaspay_core.Prelude.Dict.{Dict, empty, get, put, erase}

-- The values are of any type.
module _ {V : Type 0} where
  unfoldable pub new_in_memory_store : Dict V
  new_in_memory_store = empty

  -- `NewStore`: only one kind of store is implemented.
  unfoldable pub new_store : (kind : Text) → Result (Dict V)
  new_store kind =
      if text_eq kind (codes "inmemory")
      then ok empty
      else if text_eq kind (codes "redis")
      then err (errorf (codes "Redis storage not implemented"))
      else if text_eq kind (codes "sql")
      then err (errorf (codes "SQL storage not implemented"))
      else err (errorf (codes "unsupported storage type: " ++ kind))

  unfoldable pub found : Option V → Result V
  found (some v) = ok v
  found none = err (errorf (codes "key not found"))

  unfoldable pub load : Text → Dict V → Result V
  load key s = found (get key s)

  -- The error of `Set` is always nil.
  unfoldable pub set : Text → V → Dict V → Dict V
  set key value s = put key value s

  unfoldable pub delete_found : Text → Option V → Dict V → Option Error × Dict V
  delete_found key (some _) s = (none, erase key s)
  delete_found key none s = (some (errorf (codes "key not found")), s)

  unfoldable pub delete : Text → Dict V → Option Error × Dict V
  unfolding delete_found
  delete key s = delete_found key (get key s) s
