-- ===== src/Dynload/Exports.antt =====
-- The table of source/symbol_registry.cpp, and what its lookups find in it. The address of a function or of
-- a variable is the linker's, an argument by its name.
use Prim.Native.String.{String}
use coreinit_nx.Base.{ℕ, List, [], ◌∷◌}
use coreinit_nx.Base.Text.{codes}
use coreinit_nx.Dynload.{function, data_export, ExportedSymbol}

module _ (address : List ℕ → ℕ) where
  -- `EXPORT_FN` and `EXPORT_DATA`.
  abbrev pub export_fn : String → String → ExportedSymbol
  export_fn library fn = record {
    library = codes library;
    name = codes fn;
    address = address (codes fn);
    kind = function;
  }

  abbrev pub export_data : String → String → ExportedSymbol
  export_data library v = record {
    library = codes library;
    name = codes v;
    address = address (codes v);
    kind = data_export;
  }

  unfoldable pub k_exports : List ExportedSymbol
  k_exports =
      export_fn "coreinit" "OSInitMutex"
      ∷ export_fn "coreinit" "OSInitMutexEx"
      ∷ export_fn "coreinit" "OSLockMutex"
      ∷ export_fn "coreinit" "OSUnlockMutex"
      ∷ export_fn "coreinit" "OSTryLockMutex"
      ∷ export_fn "coreinit" "OSInitCond"
      ∷ export_fn "coreinit" "OSInitCondEx"
      ∷ export_fn "coreinit" "OSWaitCond"
      ∷ export_fn "coreinit" "OSSignalCond"
      ∷ export_fn "coreinit" "OSGetTime"
      ∷ export_fn "coreinit" "OSGetSystemTime"
      ∷ export_fn "coreinit" "OSGetTick"
      ∷ export_fn "coreinit" "OSGetSystemTick"
      ∷ export_fn "coreinit" "OSSleepTicks"
      ∷ export_fn "coreinit" "OSCalendarTimeToTicks"
      ∷ export_fn "coreinit" "OSTicksToCalendarTime"
      ∷ export_fn "coreinit" "OSGetSystemInfo"
      ∷ export_fn "coreinit" "MEMCreateExpHeapEx"
      ∷ export_fn "coreinit" "MEMDestroyExpHeap"
      ∷ export_fn "coreinit" "MEMAllocFromExpHeapEx"
      ∷ export_fn "coreinit" "MEMFreeToExpHeap"
      ∷ export_fn "coreinit" "MEMGetBaseHeapHandle"
      ∷ export_fn "coreinit" "MEMCreateFrmHeapEx"
      ∷ export_fn "coreinit" "MEMAllocFromFrmHeapEx"
      ∷ export_fn "coreinit" "MEMFreeToFrmHeap"
      ∷ export_fn "coreinit" "FSInit"
      ∷ export_fn "coreinit" "FSAddClient"
      ∷ export_fn "coreinit" "FSInitCmdBlock"
      ∷ export_fn "coreinit" "FSOpenFile"
      ∷ export_fn "coreinit" "FSReadFile"
      ∷ export_fn "coreinit" "FSCloseFile"
      ∷ export_fn "coreinit" "OSInitEvent"
      ∷ export_fn "coreinit" "OSSignalEvent"
      ∷ export_fn "coreinit" "OSWaitEvent"
      ∷ export_fn "coreinit" "OSInitSemaphore"
      ∷ export_fn "coreinit" "OSWaitSemaphore"
      ∷ export_fn "coreinit" "OSSignalSemaphore"
      ∷ export_fn "coreinit" "OSReport"
      ∷ export_fn "coreinit" "OSFatal"
      ∷ export_fn "coreinit" "OSMemoryBarrier"
      ∷ export_fn "coreinit" "__ghsLock"
      ∷ export_fn "coreinit" "__ghsUnlock"
      ∷ export_fn "coreinit" "__gh_errno_ptr"
      ∷ export_fn "coreinit" "__gh_get_errno"
      ∷ export_fn "coreinit" "__gh_set_errno"
      ∷ export_fn "coreinit" "__ghs_flock_create"
      ∷ export_fn "coreinit" "__ghs_flock_file"
      ∷ export_fn "coreinit" "__ghs_funlock_file"
      ∷ export_fn "coreinit" "UCOpen"
      ∷ export_fn "coreinit" "UCClose"
      ∷ export_fn "coreinit" "UCReadSysConfig"
      ∷ export_fn "coreinit" "UCWriteSysConfig"
      ∷ export_fn "coreinit" "MCP_Open"
      ∷ export_fn "coreinit" "MCP_Close"
      ∷ export_fn "coreinit" "MCP_GetSysProdSettings"
      ∷ export_fn "coreinit" "OSYieldThread"
      ∷ export_fn "coreinit" "PPCSync"
      ∷ export_fn "coreinit" "OSCompareAndSwapAtomicEx64"
      ∷ export_fn "coreinit" "OSEnableHomeButtonMenu"
      ∷ export_fn "coreinit" "OSSetExceptionCallback"
      ∷ export_fn "coreinit" "ENVGetEnvironmentVariable"
      ∷ export_fn "coreinit" "OSDriver_Register"
      ∷ export_fn "coreinit" "OSDriver_Deregister"
      ∷ export_fn "coreinit" "FSOpenFileAsync"
      ∷ export_fn "coreinit" "FSReadFileWithPosAsync"
      ∷ export_fn "coreinit" "FSCloseFileAsync"
      ∷ export_fn "coreinit" "__ghs_mtx_init"
      ∷ export_fn "coreinit" "__ghs_mtx_lock"
      ∷ export_fn "coreinit" "__ghs_mtx_unlock"
      ∷ export_fn "coreinit" "MEMFindContainHeap"
      ∷ export_data "coreinit" "MEMAllocFromDefaultHeap"
      ∷ export_data "coreinit" "MEMAllocFromDefaultHeapEx"
      ∷ export_data "coreinit" "MEMFreeToDefaultHeap"
      ∷ []
