-- ===== src/Dart/Header/Isolates.antt =====
-- bridge/include/dart_api.h, in the order of the file.
use hiddify_core.Prelude.{List, [], ◌∷◌}
use hiddify_core.Dart.CType.{
  Declaration, typedef, prototype, void, bool, char, int, intptr_t, int_t, uint_t, name, const,
  pointer, structure, fields,
}

-- Starting and stopping the VM.
unfoldable pub initialize : List Declaration
initialize =
    typedef "Dart_InitializeParams" (
      structure (
        fields (
          ("version", (int_t 32))
          ∷ ("vm_snapshot_data", (pointer (const (uint_t 8))))
          ∷ ("vm_snapshot_instructions", (pointer (const (uint_t 8))))
          ∷ ("create_group", (name "Dart_IsolateGroupCreateCallback"))
          ∷ ("initialize_isolate", (name "Dart_InitializeIsolateCallback"))
          ∷ ("shutdown_isolate", (name "Dart_IsolateShutdownCallback"))
          ∷ ("cleanup_isolate", (name "Dart_IsolateCleanupCallback"))
          ∷ ("cleanup_group", (name "Dart_IsolateGroupCleanupCallback"))
          ∷ ("thread_start", (name "Dart_ThreadStartCallback"))
          ∷ ("thread_exit", (name "Dart_ThreadExitCallback"))
          ∷ ("file_open", (name "Dart_FileOpenCallback"))
          ∷ ("file_read", (name "Dart_FileReadCallback"))
          ∷ ("file_write", (name "Dart_FileWriteCallback"))
          ∷ ("file_close", (name "Dart_FileCloseCallback"))
          ∷ ("entropy_source", (name "Dart_EntropySource"))
          ∷ ("get_service_assets", (name "Dart_GetVMServiceAssetsArchive"))
          ∷ ("start_kernel_isolate", bool)
          ∷ ("code_observer", (pointer (name "Dart_CodeObserver")))
          ∷ ("register_kernel_blob", (name "Dart_RegisterKernelBlobCallback"))
          ∷ ("unregister_kernel_blob", (name "Dart_UnregisterKernelBlobCallback"))
          ∷ ("vmex_resource", (name "zx_handle_t"))
          ∷ [])))
    ∷ prototype "Dart_Initialize" (pointer char)
        (("params", (pointer (name "Dart_InitializeParams"))) ∷ [])
    ∷ prototype "Dart_Cleanup" (pointer char) []
    ∷ prototype "Dart_SetVMFlags" (pointer char)
        (("argc", int) ∷ ("argv", (pointer (pointer (const char)))) ∷ [])
    ∷ prototype "Dart_IsVMFlagSet" bool (("flag_name", (pointer (const char))) ∷ [])
    ∷ []

-- Making and shutting down isolates.
unfoldable pub isolate_creation : List Declaration
isolate_creation =
    prototype "Dart_CreateIsolateGroup" (name "Dart_Isolate") (
      ("script_uri", (pointer (const char)))
      ∷ ("name", (pointer (const char)))
      ∷ ("isolate_snapshot_data", (pointer (const (uint_t 8))))
      ∷ ("isolate_snapshot_instructions", (pointer (const (uint_t 8))))
      ∷ ("flags", (pointer (name "Dart_IsolateFlags")))
      ∷ ("isolate_group_data", (pointer void))
      ∷ ("isolate_data", (pointer void))
      ∷ ("error", (pointer (pointer char)))
      ∷ [])
    ∷ prototype "Dart_CreateIsolateInGroup" (name "Dart_Isolate") (
        ("group_member", (name "Dart_Isolate"))
        ∷ ("name", (pointer (const char)))
        ∷ ("shutdown_callback", (name "Dart_IsolateShutdownCallback"))
        ∷ ("cleanup_callback", (name "Dart_IsolateCleanupCallback"))
        ∷ ("child_isolate_data", (pointer void))
        ∷ ("error", (pointer (pointer char)))
        ∷ [])
    ∷ prototype "Dart_CreateIsolateGroupFromKernel" (name "Dart_Isolate") (
        ("script_uri", (pointer (const char)))
        ∷ ("name", (pointer (const char)))
        ∷ ("kernel_buffer", (pointer (const (uint_t 8))))
        ∷ ("kernel_buffer_size", intptr_t)
        ∷ ("flags", (pointer (name "Dart_IsolateFlags")))
        ∷ ("isolate_group_data", (pointer void))
        ∷ ("isolate_data", (pointer void))
        ∷ ("error", (pointer (pointer char)))
        ∷ [])
    ∷ prototype "Dart_ShutdownIsolate" void []
    ∷ []

-- The current isolate, and what belongs to an isolate.
unfoldable pub isolate_data : List Declaration
isolate_data =
    prototype "Dart_CurrentIsolate" (name "Dart_Isolate") []
    ∷ prototype "Dart_CurrentIsolateData" (pointer void) []
    ∷ prototype "Dart_IsolateData" (pointer void) (("isolate", (name "Dart_Isolate")) ∷ [])
    ∷ prototype "Dart_CurrentIsolateGroup" (name "Dart_IsolateGroup") []
    ∷ prototype "Dart_CurrentIsolateGroupData" (pointer void) []
    ∷ typedef "Dart_IsolateGroupId" (int_t 64)
    ∷ prototype "Dart_CurrentIsolateGroupId" (name "Dart_IsolateGroupId") []
    ∷ prototype "Dart_IsolateGroupData" (pointer void) (("isolate", (name "Dart_Isolate")) ∷ [])
    ∷ prototype "Dart_DebugName" (name "Dart_Handle") []
    ∷ prototype "Dart_DebugNameToCString" (pointer (const char)) []
    ∷ prototype "Dart_IsolateServiceId" (pointer (const char))
        (("isolate", (name "Dart_Isolate")) ∷ [])
    ∷ prototype "Dart_EnterIsolate" void (("isolate", (name "Dart_Isolate")) ∷ [])
    ∷ prototype "Dart_KillIsolate" void (("isolate", (name "Dart_Isolate")) ∷ [])
    ∷ prototype "Dart_NotifyIdle" void (("deadline", (int_t 64)) ∷ [])
    ∷ []
