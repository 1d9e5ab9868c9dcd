-- ===== src/Dart/Header/Callbacks.antt =====
-- bridge/include/dart_api.h, in the order of the file.
use hiddify_core.Prelude.{List, [], ◌∷◌}
use hiddify_core.Dart.CType.{
  Declaration, typedef, prototype, void, bool, char, intptr_t, uintptr_t, int_t, uint_t, name, tag,
  const, pointer, function, structure, done, params, fields,
}

-- The version of the VM, and the flags of an isolate.
unfoldable pub isolate_flags : List Declaration
isolate_flags =
    prototype "Dart_VersionString" (pointer (const char)) []
    ∷ typedef "Dart_IsolateFlags" (
        structure (
          fields (
            ("version", (int_t 32))
            ∷ ("enable_asserts", bool)
            ∷ ("use_field_guards", bool)
            ∷ ("use_osr", bool)
            ∷ ("obfuscate", bool)
            ∷ ("load_vmservice_library", bool)
            ∷ ("copy_parent_code", bool)
            ∷ ("null_safety", bool)
            ∷ ("is_system_isolate", bool)
            ∷ ("snapshot_is_dontneed_safe", bool)
            ∷ ("branch_coverage", bool)
            ∷ [])))
    ∷ prototype "Dart_IsolateFlagsInitialize" void
        (("flags", (pointer (name "Dart_IsolateFlags"))) ∷ [])
    ∷ []

-- What the VM calls as isolates and threads come and go.
unfoldable pub isolate_callbacks : List Declaration
isolate_callbacks =
    typedef "Dart_IsolateGroupCreateCallback" (
      pointer (
        function (name "Dart_Isolate") (
          params (
            ("script_uri", (pointer (const char)))
            ∷ ("main", (pointer (const char)))
            ∷ ("package_root", (pointer (const char)))
            ∷ ("package_config", (pointer (const char)))
            ∷ ("flags", (pointer (name "Dart_IsolateFlags")))
            ∷ ("isolate_data", (pointer void))
            ∷ ("error", (pointer (pointer char)))
            ∷ []))))
    ∷ typedef "Dart_InitializeIsolateCallback" (
        pointer (
          function bool (
            params (
              ("child_isolate_data", (pointer (pointer void)))
              ∷ ("error", (pointer (pointer char)))
              ∷ []))))
    ∷ typedef "Dart_IsolateShutdownCallback" (
        pointer (
          function void (
            params
              (("isolate_group_data", (pointer void)) ∷ ("isolate_data", (pointer void)) ∷ []))))
    ∷ typedef "Dart_IsolateCleanupCallback" (
        pointer (
          function void (
            params
              (("isolate_group_data", (pointer void)) ∷ ("isolate_data", (pointer void)) ∷ []))))
    ∷ typedef "Dart_IsolateGroupCleanupCallback"
        (pointer (function void (params (("isolate_group_data", (pointer void)) ∷ []))))
    ∷ typedef "Dart_ThreadStartCallback" (pointer (function void done))
    ∷ typedef "Dart_ThreadExitCallback" (pointer (function void done))
    ∷ []

-- What the VM calls to read files, and to announce code.
unfoldable pub file_callbacks : List Declaration
file_callbacks =
    typedef "Dart_FileOpenCallback" (
      pointer (
        function (pointer void) (params (("name", (pointer (const char))) ∷ ("write", bool) ∷ []))))
    ∷ typedef "Dart_FileReadCallback" (
        pointer (
          function void (
            params (
              ("data", (pointer (pointer (uint_t 8))))
              ∷ ("file_length", (pointer intptr_t))
              ∷ ("stream", (pointer void))
              ∷ []))))
    ∷ typedef "Dart_FileWriteCallback" (
        pointer (
          function void (
            params (
              ("data", (pointer (const void)))
              ∷ ("length", intptr_t)
              ∷ ("stream", (pointer void))
              ∷ []))))
    ∷ typedef "Dart_FileCloseCallback"
        (pointer (function void (params (("stream", (pointer void)) ∷ []))))
    ∷ typedef "Dart_EntropySource" (
        pointer
          (function bool (params (("buffer", (pointer (uint_t 8))) ∷ ("length", intptr_t) ∷ []))))
    ∷ typedef "Dart_GetVMServiceAssetsArchive" (pointer (function (name "Dart_Handle") done))
    ∷ typedef "Dart_OnNewCodeCallback" (
        pointer (
          function void (
            params (
              ("observer", (pointer (tag "Dart_CodeObserver")))
              ∷ ("name", (pointer (const char)))
              ∷ ("base", uintptr_t)
              ∷ ("size", uintptr_t)
              ∷ []))))
    ∷ typedef "Dart_CodeObserver" (
        structure (
          fields
            (("data", (pointer void)) ∷ ("on_new_code", (name "Dart_OnNewCodeCallback")) ∷ [])))
    ∷ typedef "Dart_RegisterKernelBlobCallback" (
        pointer (
          function (pointer (const char)) (
            params (
              ("kernel_buffer", (pointer (const (uint_t 8))))
              ∷ ("kernel_buffer_size", intptr_t)
              ∷ []))))
    ∷ typedef "Dart_UnregisterKernelBlobCallback"
        (pointer (function void (params (("kernel_blob_uri", (pointer (const char))) ∷ []))))
    ∷ []
