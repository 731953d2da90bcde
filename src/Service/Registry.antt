-- ===== src/Service/Registry.antt =====
-- base/microservice/internal/service/registry.go and channels.go. Each method holds the lock for its
-- whole body, so it is one step.
use caaspay_core.Prelude.{Option, Text}
use caaspay_core.Prelude.Dict.{Dict, empty, get, put, erase}

module _ {V : Type 0} where
  unfoldable pub new_registry : Dict V
  new_registry = empty

  unfoldable pub register : Text → V → Dict V → Dict V
  register name v r = put name v r

  unfoldable pub lookup : Text → Dict V → Option V
  lookup name r = get name r

  -- `Delete` of the channels.
  unfoldable pub unregister : Text → Dict V → Dict V
  unregister name r = erase name r

  -- `List` of the services, a copy of the map.
  unfoldable pub listed : Dict V → Dict V
  listed r = r
