-- ===== src/Task/Service/Adding.antt =====
-- What `addTaskItem` of packages/brewva-runtime/src/services/task.ts does to the items.
use pi_roaster.Task.Service.{Reading}
