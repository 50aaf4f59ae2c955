-- ===== src/Runtime/Execute/Total.antt =====
-- `DefaultHarnessRuntime.execute` of src/millforge/runtime.py from the call to its return.
use millforge.Runtime.Effects.{◌>>◌}
