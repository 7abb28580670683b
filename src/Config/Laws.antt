-- ===== src/Config/Laws.antt =====
-- `ListLimit` and `Workers` of internal/config/config.go.
use ade_ctld.Common.{arith, ◌<◌}
use ade_ctld.Config.{Config, list_limit, workers}

-- The list limit and the number of workers are positive, whatever the environment says.
pub limits_positive : (c : Config) → (0 < list_limit c) × (0 < workers c)
unfolding list_limit workers
limits_positive c = ground arith
