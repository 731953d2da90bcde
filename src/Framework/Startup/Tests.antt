-- ===== src/Framework/Startup/Tests.antt =====
-- The theorem about the framework's start at a concrete input.
use caaspay_core.Config.{Config}
