-- ===== src/Dart/Header/Handles.antt =====
-- bridge/include/dart_api.h, in the order of the file.
use hiddify_core.Prelude.{List, [], ◌∷◌}
use hiddify_core.Dart.CType.{
  Declaration, typedef, prototype, void, bool, char, intptr_t, name, tag, const, pointer, function,
  params,
}

-- The types of handles and isolates.
unfoldable pub handle_types : List Declaration
handle_types =
    typedef "Dart_Isolate" (pointer (tag "_Dart_Isolate"))
    ∷ typedef "Dart_IsolateGroup" (pointer (tag "_Dart_IsolateGroup"))
    ∷ typedef "Dart_Handle" (pointer (tag "_Dart_Handle"))
    ∷ typedef "Dart_PersistentHandle" (name "Dart_Handle")
    ∷ typedef "Dart_WeakPersistentHandle" (pointer (tag "_Dart_WeakPersistentHandle"))
    ∷ typedef "Dart_FinalizableHandle" (pointer (tag "_Dart_FinalizableHandle"))
    ∷ typedef "Dart_HandleFinalizer" (
        pointer (
          function void
            (params (("isolate_callback_data", (pointer void)) ∷ ("peer", (pointer void)) ∷ []))))
    ∷ []

-- Error handles: what kind one is, what it holds, making and propagating one.
unfoldable pub errors : List Declaration
errors =
    prototype "Dart_IsError" bool (("handle", (name "Dart_Handle")) ∷ [])
    ∷ prototype "Dart_IsApiError" bool (("handle", (name "Dart_Handle")) ∷ [])
    ∷ prototype "Dart_IsUnhandledExceptionError" bool (("handle", (name "Dart_Handle")) ∷ [])
    ∷ prototype "Dart_IsCompilationError" bool (("handle", (name "Dart_Handle")) ∷ [])
    ∷ prototype "Dart_IsFatalError" bool (("handle", (name "Dart_Handle")) ∷ [])
    ∷ prototype "Dart_GetError" (pointer (const char)) (("handle", (name "Dart_Handle")) ∷ [])
    ∷ prototype "Dart_ErrorHasException" bool (("handle", (name "Dart_Handle")) ∷ [])
    ∷ prototype "Dart_ErrorGetException" (name "Dart_Handle")
        (("handle", (name "Dart_Handle")) ∷ [])
    ∷ prototype "Dart_ErrorGetStackTrace" (name "Dart_Handle")
        (("handle", (name "Dart_Handle")) ∷ [])
    ∷ prototype "Dart_NewApiError" (name "Dart_Handle") (("error", (pointer (const char))) ∷ [])
    ∷ prototype "Dart_NewCompilationError" (name "Dart_Handle")
        (("error", (pointer (const char))) ∷ [])
    ∷ prototype "Dart_NewUnhandledExceptionError" (name "Dart_Handle")
        (("exception", (name "Dart_Handle")) ∷ [])
    ∷ prototype "Dart_PropagateError" void (("handle", (name "Dart_Handle")) ∷ [])
    ∷ []

-- Identity of objects, and persistent, weak and finalizable handles.
unfoldable pub persistent_handles : List Declaration
persistent_handles =
    prototype "Dart_ToString" (name "Dart_Handle") (("object", (name "Dart_Handle")) ∷ [])
    ∷ prototype "Dart_IdentityEquals" bool
        (("obj1", (name "Dart_Handle")) ∷ ("obj2", (name "Dart_Handle")) ∷ [])
    ∷ prototype "Dart_HandleFromPersistent" (name "Dart_Handle")
        (("object", (name "Dart_PersistentHandle")) ∷ [])
    ∷ prototype "Dart_HandleFromWeakPersistent" (name "Dart_Handle")
        (("object", (name "Dart_WeakPersistentHandle")) ∷ [])
    ∷ prototype "Dart_NewPersistentHandle" (name "Dart_PersistentHandle")
        (("object", (name "Dart_Handle")) ∷ [])
    ∷ prototype "Dart_SetPersistentHandle" void
        (("obj1", (name "Dart_PersistentHandle")) ∷ ("obj2", (name "Dart_Handle")) ∷ [])
    ∷ prototype "Dart_DeletePersistentHandle" void (("object", (name "Dart_PersistentHandle")) ∷ [])
    ∷ prototype "Dart_NewWeakPersistentHandle" (name "Dart_WeakPersistentHandle") (
        ("object", (name "Dart_Handle"))
        ∷ ("peer", (pointer void))
        ∷ ("external_allocation_size", intptr_t)
        ∷ ("callback", (name "Dart_HandleFinalizer"))
        ∷ [])
    ∷ prototype "Dart_DeleteWeakPersistentHandle" void
        (("object", (name "Dart_WeakPersistentHandle")) ∷ [])
    ∷ prototype "Dart_NewFinalizableHandle" (name "Dart_FinalizableHandle") (
        ("object", (name "Dart_Handle"))
        ∷ ("peer", (pointer void))
        ∷ ("external_allocation_size", intptr_t)
        ∷ ("callback", (name "Dart_HandleFinalizer"))
        ∷ [])
    ∷ prototype "Dart_DeleteFinalizableHandle" void (
        ("object", (name "Dart_FinalizableHandle"))
        ∷ ("strong_ref_to_object", (name "Dart_Handle"))
        ∷ [])
    ∷ []
