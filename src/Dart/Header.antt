-- ===== src/Dart/Header.antt =====
-- The declarations of bridge/include/dart_api.h, up to its section on scopes, and of
-- bridge/include/dart_native_api.h, which the symbol table of dart_api_dl.h copies.
mod Handles
mod Callbacks
mod Isolates
mod Profiling
mod Messages
mod Native
unfoldable pub use Handles.{handle_types, errors, persistent_handles}
unfoldable pub use Callbacks.{isolate_flags, isolate_callbacks, file_callbacks}
unfoldable pub use Isolates.{initialize, isolate_creation, isolate_data}
unfoldable pub use Profiling.{heap_sampling, profiling, snapshots}
unfoldable pub use Messages.{pausing, message_loop, scopes}
unfoldable pub use Native.{native_objects, native_ports}
use hiddify_core.Prelude.{List, ◌++◌}
use hiddify_core.Dart.CType.{Declaration}

-- dart_native_api.h includes dart_api.h, so its declarations come last.
unfoldable pub declarations : List Declaration
unfolding handle_types errors persistent_handles isolate_flags isolate_callbacks file_callbacks
    initialize isolate_creation isolate_data heap_sampling profiling snapshots pausing message_loop
    scopes native_objects native_ports
declarations =
    handle_types
    ++ (errors
        ++ (persistent_handles
            ++ (isolate_flags
                ++ (isolate_callbacks
                    ++ (file_callbacks
                        ++ (initialize
                            ++ (isolate_creation
                                ++ (isolate_data
                                    ++ (heap_sampling
                                        ++ (profiling
                                            ++ (snapshots
                                                ++ (pausing
                                                    ++ (message_loop
                                                        ++ (scopes
                                                            ++ (native_objects
                                                            ++ native_ports)))))))))))))))
