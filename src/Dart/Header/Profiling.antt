-- ===== src/Dart/Header/Profiling.antt =====
-- bridge/include/dart_api.h, in the order of the file.
use hiddify_core.Prelude.{List, [], ◌∷◌}
use hiddify_core.Dart.CType.{
  Declaration, typedef, prototype, void, bool, char, intptr_t, uint_t, name, const, pointer,
  function, enumeration, params,
}

-- The heap profiler.
unfoldable pub heap_sampling : List Declaration
heap_sampling =
    typedef "Dart_HeapSamplingReportCallback" (
      pointer
        (function void (params (("context", (pointer void)) ∷ ("data", (pointer void)) ∷ []))))
    ∷ typedef "Dart_HeapSamplingCreateCallback" (
        pointer (
          function (pointer void) (
            params (
              ("isolate", (name "Dart_Isolate"))
              ∷ ("isolate_group", (name "Dart_IsolateGroup"))
              ∷ ("cls_name", (pointer (const char)))
              ∷ ("allocation_size", intptr_t)
              ∷ []))))
    ∷ typedef "Dart_HeapSamplingDeleteCallback"
        (pointer (function void (params (("data", (pointer void)) ∷ []))))
    ∷ prototype "Dart_EnableHeapSampling" void []
    ∷ prototype "Dart_DisableHeapSampling" void []
    ∷ prototype "Dart_RegisterHeapSamplingCallback" void (
        ("create_callback", (name "Dart_HeapSamplingCreateCallback"))
        ∷ ("delete_callback", (name "Dart_HeapSamplingDeleteCallback"))
        ∷ [])
    ∷ prototype "Dart_ReportSurvivingAllocations" void (
        ("callback", (name "Dart_HeapSamplingReportCallback"))
        ∷ ("context", (pointer void))
        ∷ ("force_gc", bool)
        ∷ [])
    ∷ prototype "Dart_SetHeapSamplingPeriod" void (("bytes", intptr_t) ∷ [])
    ∷ prototype "Dart_NotifyDestroyed" void []
    ∷ prototype "Dart_NotifyLowMemory" void []
    ∷ []

-- The performance mode, the profiler, and leaving an isolate.
unfoldable pub profiling : List Declaration
profiling =
    typedef "Dart_PerformanceMode" (
      enumeration (
        "Dart_PerformanceMode_Default" ∷ "Dart_PerformanceMode_Latency"
        ∷ "Dart_PerformanceMode_Throughput" ∷ "Dart_PerformanceMode_Memory" ∷ []))
    ∷ prototype "Dart_SetPerformanceMode" (name "Dart_PerformanceMode")
        (("mode", (name "Dart_PerformanceMode")) ∷ [])
    ∷ prototype "Dart_StartProfiling" void []
    ∷ prototype "Dart_StopProfiling" void []
    ∷ prototype "Dart_ThreadDisableProfiling" void []
    ∷ prototype "Dart_ThreadEnableProfiling" void []
    ∷ prototype "Dart_AddSymbols" void (
        ("dso_name", (pointer (const char)))
        ∷ ("buffer", (pointer void))
        ∷ ("buffer_size", intptr_t)
        ∷ [])
    ∷ prototype "Dart_ExitIsolate" void []
    ∷ []

-- Snapshots of an isolate.
unfoldable pub snapshots : List Declaration
snapshots =
    prototype "Dart_CreateSnapshot" (name "Dart_Handle") (
      ("vm_snapshot_data_buffer", (pointer (pointer (uint_t 8))))
      ∷ ("vm_snapshot_data_size", (pointer intptr_t))
      ∷ ("isolate_snapshot_data_buffer", (pointer (pointer (uint_t 8))))
      ∷ ("isolate_snapshot_data_size", (pointer intptr_t))
      ∷ ("is_core", bool)
      ∷ [])
    ∷ prototype "Dart_IsKernel" bool
        (("buffer", (pointer (const (uint_t 8)))) ∷ ("buffer_size", intptr_t) ∷ [])
    ∷ prototype "Dart_IsolateMakeRunnable" (pointer char) (("isolate", (name "Dart_Isolate")) ∷ [])
    ∷ []
