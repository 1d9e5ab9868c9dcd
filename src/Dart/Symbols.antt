-- ===== src/Dart/Symbols.antt =====
-- bridge/include/dart_api_dl.h: the symbols that dart_api_dl.c binds, in the order of the tables.
use hiddify_core.Prelude.{List, [], ◌∷◌, ◌++◌}
use hiddify_core.Dart.CType.{
  Declaration, typedef, void, bool, char, intptr_t, int_t, name, const, pointer, function, params,
  Symbol, symbol,
}

-- the types that the header declares for itself
unfoldable pub dl_types : List Declaration
dl_types =
    typedef "Dart_Port_DL" (int_t 64)
    ∷ typedef "Dart_NativeMessageHandler_DL" (
        pointer (
          function void (
            params (
              ("dest_port_id", name "Dart_Port_DL")
              ∷ ("message", pointer (name "Dart_CObject"))
              ∷ []))))
    ∷ []

-- DART_NATIVE_API_DL_SYMBOLS
unfoldable pub native_api_dl_symbols : List Symbol
native_api_dl_symbols =
    symbol "Dart_PostCObject" bool
      (("port_id", (name "Dart_Port_DL")) ∷ ("message", (pointer (name "Dart_CObject"))) ∷ [])
    ∷ symbol "Dart_PostInteger" bool
        (("port_id", (name "Dart_Port_DL")) ∷ ("message", (int_t 64)) ∷ [])
    ∷ symbol "Dart_NewNativePort" (name "Dart_Port_DL") (
        ("name", (pointer (const char)))
        ∷ ("handler", (name "Dart_NativeMessageHandler_DL"))
        ∷ ("handle_concurrently", bool)
        ∷ [])
    ∷ symbol "Dart_CloseNativePort" bool (("native_port_id", (name "Dart_Port_DL")) ∷ [])
    ∷ []

-- DART_API_DL_SYMBOLS
unfoldable pub api_dl_symbols : List Symbol
api_dl_symbols =
    symbol "Dart_IsError" bool (("handle", (name "Dart_Handle")) ∷ [])
    ∷ symbol "Dart_IsApiError" bool (("handle", (name "Dart_Handle")) ∷ [])
    ∷ symbol "Dart_IsUnhandledExceptionError" bool (("handle", (name "Dart_Handle")) ∷ [])
    ∷ symbol "Dart_IsCompilationError" bool (("handle", (name "Dart_Handle")) ∷ [])
    ∷ symbol "Dart_IsFatalError" bool (("handle", (name "Dart_Handle")) ∷ [])
    ∷ symbol "Dart_GetError" (pointer (const char)) (("handle", (name "Dart_Handle")) ∷ [])
    ∷ symbol "Dart_ErrorHasException" bool (("handle", (name "Dart_Handle")) ∷ [])
    ∷ symbol "Dart_ErrorGetException" (name "Dart_Handle") (("handle", (name "Dart_Handle")) ∷ [])
    ∷ symbol "Dart_ErrorGetStackTrace" (name "Dart_Handle") (("handle", (name "Dart_Handle")) ∷ [])
    ∷ symbol "Dart_NewApiError" (name "Dart_Handle") (("error", (pointer (const char))) ∷ [])
    ∷ symbol "Dart_NewCompilationError" (name "Dart_Handle")
        (("error", (pointer (const char))) ∷ [])
    ∷ symbol "Dart_NewUnhandledExceptionError" (name "Dart_Handle")
        (("exception", (name "Dart_Handle")) ∷ [])
    ∷ symbol "Dart_PropagateError" void (("handle", (name "Dart_Handle")) ∷ [])
    ∷ symbol "Dart_HandleFromPersistent" (name "Dart_Handle")
        (("object", (name "Dart_PersistentHandle")) ∷ [])
    ∷ symbol "Dart_HandleFromWeakPersistent" (name "Dart_Handle")
        (("object", (name "Dart_WeakPersistentHandle")) ∷ [])
    ∷ symbol "Dart_NewPersistentHandle" (name "Dart_PersistentHandle")
        (("object", (name "Dart_Handle")) ∷ [])
    ∷ symbol "Dart_SetPersistentHandle" void
        (("obj1", (name "Dart_PersistentHandle")) ∷ ("obj2", (name "Dart_Handle")) ∷ [])
    ∷ symbol "Dart_DeletePersistentHandle" void (("object", (name "Dart_PersistentHandle")) ∷ [])
    ∷ symbol "Dart_NewWeakPersistentHandle" (name "Dart_WeakPersistentHandle") (
        ("object", (name "Dart_Handle"))
        ∷ ("peer", (pointer void))
        ∷ ("external_allocation_size", intptr_t)
        ∷ ("callback", (name "Dart_HandleFinalizer"))
        ∷ [])
    ∷ symbol "Dart_DeleteWeakPersistentHandle" void
        (("object", (name "Dart_WeakPersistentHandle")) ∷ [])
    ∷ symbol "Dart_NewFinalizableHandle" (name "Dart_FinalizableHandle") (
        ("object", (name "Dart_Handle"))
        ∷ ("peer", (pointer void))
        ∷ ("external_allocation_size", intptr_t)
        ∷ ("callback", (name "Dart_HandleFinalizer"))
        ∷ [])
    ∷ symbol "Dart_DeleteFinalizableHandle" void (
        ("object", (name "Dart_FinalizableHandle"))
        ∷ ("strong_ref_to_object", (name "Dart_Handle"))
        ∷ [])
    ∷ symbol "Dart_CurrentIsolate" (name "Dart_Isolate") []
    ∷ symbol "Dart_ExitIsolate" void []
    ∷ symbol "Dart_EnterIsolate" void (("", (name "Dart_Isolate")) ∷ [])
    ∷ symbol "Dart_Post" bool
        (("port_id", (name "Dart_Port_DL")) ∷ ("object", (name "Dart_Handle")) ∷ [])
    ∷ symbol "Dart_NewSendPort" (name "Dart_Handle") (("port_id", (name "Dart_Port_DL")) ∷ [])
    ∷ symbol "Dart_SendPortGetId" (name "Dart_Handle")
        (("port", (name "Dart_Handle")) ∷ ("port_id", (pointer (name "Dart_Port_DL"))) ∷ [])
    ∷ symbol "Dart_EnterScope" void []
    ∷ symbol "Dart_ExitScope" void []
    ∷ symbol "Dart_IsNull" bool (("", (name "Dart_Handle")) ∷ [])
    ∷ []

-- DART_API_DEPRECATED_DL_SYMBOLS
unfoldable pub deprecated_dl_symbols : List Symbol
deprecated_dl_symbols =
    symbol "Dart_UpdateExternalSize" void
      (("object", (name "Dart_WeakPersistentHandle")) ∷ ("external_allocation_size", intptr_t) ∷ [])
    ∷ symbol "Dart_UpdateFinalizableExternalSize" void (
        ("object", (name "Dart_FinalizableHandle"))
        ∷ ("strong_ref_to_object", (name "Dart_Handle"))
        ∷ ("external_allocation_size", intptr_t)
        ∷ [])
    ∷ []

-- DART_API_ALL_DL_SYMBOLS
unfoldable pub dl_symbols : List Symbol
unfolding native_api_dl_symbols api_dl_symbols
dl_symbols = native_api_dl_symbols ++ api_dl_symbols
