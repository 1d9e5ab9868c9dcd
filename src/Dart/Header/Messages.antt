-- ===== src/Dart/Header/Messages.antt =====
-- bridge/include/dart_api.h, in the order of the file.
use hiddify_core.Prelude.{List, [], ◌∷◌}
use hiddify_core.Dart.CType.{
  Declaration, typedef, prototype, void, bool, char, intptr_t, int_t, uint_t, name, pointer,
  function, params,
}

-- Ports, the wakeup of a message loop, pausing, and the sticky error.
unfoldable pub pausing : List Declaration
pausing =
    typedef "Dart_Port" (int_t 64)
    ∷ typedef "Dart_MessageNotifyCallback"
        (pointer (function void (params (("destination_isolate", (name "Dart_Isolate")) ∷ []))))
    ∷ prototype "Dart_SetMessageNotifyCallback" void
        (("message_notify_callback", (name "Dart_MessageNotifyCallback")) ∷ [])
    ∷ prototype "Dart_GetMessageNotifyCallback" (name "Dart_MessageNotifyCallback") []
    ∷ prototype "Dart_ShouldPauseOnStart" bool []
    ∷ prototype "Dart_SetShouldPauseOnStart" void (("should_pause", bool) ∷ [])
    ∷ prototype "Dart_IsPausedOnStart" bool []
    ∷ prototype "Dart_SetPausedOnStart" void (("paused", bool) ∷ [])
    ∷ prototype "Dart_ShouldPauseOnExit" bool []
    ∷ prototype "Dart_SetShouldPauseOnExit" void (("should_pause", bool) ∷ [])
    ∷ prototype "Dart_IsPausedOnExit" bool []
    ∷ prototype "Dart_SetPausedOnExit" void (("paused", bool) ∷ [])
    ∷ prototype "Dart_SetStickyError" void (("error", (name "Dart_Handle")) ∷ [])
    ∷ prototype "Dart_HasStickyError" bool []
    ∷ prototype "Dart_GetStickyError" (name "Dart_Handle") []
    ∷ []

-- Handling messages, and ports as values.
unfoldable pub message_loop : List Declaration
message_loop =
    prototype "Dart_HandleMessage" (name "Dart_Handle") []
    ∷ prototype "Dart_WaitForEvent" (name "Dart_Handle") (("timeout_millis", (int_t 64)) ∷ [])
    ∷ prototype "Dart_HandleServiceMessages" bool []
    ∷ prototype "Dart_HasServiceMessages" bool []
    ∷ prototype "Dart_RunLoop" (name "Dart_Handle") []
    ∷ prototype "Dart_RunLoopAsync" bool (
        ("errors_are_fatal", bool)
        ∷ ("on_error_port", (name "Dart_Port"))
        ∷ ("on_exit_port", (name "Dart_Port"))
        ∷ ("error", (pointer (pointer char)))
        ∷ [])
    ∷ prototype "Dart_GetMainPortId" (name "Dart_Port") []
    ∷ prototype "Dart_HasLivePorts" bool []
    ∷ prototype "Dart_Post" bool
        (("port_id", (name "Dart_Port")) ∷ ("object", (name "Dart_Handle")) ∷ [])
    ∷ prototype "Dart_NewSendPort" (name "Dart_Handle") (("port_id", (name "Dart_Port")) ∷ [])
    ∷ prototype "Dart_SendPortGetId" (name "Dart_Handle")
        (("port", (name "Dart_Handle")) ∷ ("port_id", (pointer (name "Dart_Port"))) ∷ [])
    ∷ []

-- Scopes of handles, and the null object.
unfoldable pub scopes : List Declaration
scopes =
    prototype "Dart_EnterScope" void []
    ∷ prototype "Dart_ExitScope" void []
    ∷ prototype "Dart_ScopeAllocate" (pointer (uint_t 8)) (("size", intptr_t) ∷ [])
    ∷ prototype "Dart_Null" (name "Dart_Handle") []
    ∷ prototype "Dart_IsNull" bool (("object", (name "Dart_Handle")) ∷ [])
    ∷ []
