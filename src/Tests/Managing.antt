-- ===== src/Tests/Managing.antt =====
-- Managing a device in an empty table.
use cuddl.Base.{refl, arith}
use cuddl.Manager.{device_manage}
use cuddl.Manager.Manage.{Managed, device_manage-Managed}
use cuddl.Tests.World.{booted, platform}

device_manage-Managed_example : Managed 5 booted (device_manage platform 5 booted)
device_manage-Managed_example =
    device_manage-Managed platform 5 booted (omega arith) refl (λ s n. ((λ e. cc), (λ e. cc)))
