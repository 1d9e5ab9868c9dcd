-- ===== src/Dart/Header/Native.antt =====
-- bridge/include/dart_native_api.h, in the order of the file.
use hiddify_core.Prelude.{List, [], ◌∷◌}
use hiddify_core.Dart.CType.{
  Declaration, typedef, prototype, void, bool, char, double, intptr_t, int_t, uint_t, name, tag,
  const, pointer, function, structure, union, enumeration, params, fields,
}

-- A message as the native side builds it.
unfoldable pub native_objects : List Declaration
native_objects =
    typedef "Dart_CObject_Type" (
      enumeration (
        "Dart_CObject_kNull" ∷ "Dart_CObject_kBool" ∷ "Dart_CObject_kInt32" ∷ "Dart_CObject_kInt64"
        ∷ "Dart_CObject_kDouble" ∷ "Dart_CObject_kString" ∷ "Dart_CObject_kArray"
        ∷ "Dart_CObject_kTypedData" ∷ "Dart_CObject_kExternalTypedData" ∷ "Dart_CObject_kSendPort"
        ∷ "Dart_CObject_kCapability" ∷ "Dart_CObject_kNativePointer" ∷ "Dart_CObject_kUnsupported"
        ∷ "Dart_CObject_kUnmodifiableExternalTypedData" ∷ "Dart_CObject_kNumberOfTypes" ∷ []))
    ∷ typedef "Dart_CObject" (
        structure (
          fields (
            ("type", (name "Dart_CObject_Type"))
            ∷ (
              "value",
              (union (
                  fields (
                    ("as_bool", bool)
                    ∷ ("as_int32", (int_t 32))
                    ∷ ("as_int64", (int_t 64))
                    ∷ ("as_double", double)
                    ∷ ("as_string", (pointer (const char)))
                    ∷ (
                      "as_send_port",
                      (structure (
                          fields
                            (("id", (name "Dart_Port")) ∷ ("origin_id", (name "Dart_Port")) ∷ []))),
                    )
                    ∷ ("as_capability", (structure (fields (("id", (int_t 64)) ∷ []))))
                    ∷ (
                      "as_array",
                      (structure (
                          fields (
                            ("length", intptr_t)
                            ∷ ("values", (pointer (pointer (tag "_Dart_CObject"))))
                            ∷ []))),
                    )
                    ∷ (
                      "as_typed_data",
                      (structure (
                          fields (
                            ("type", (name "Dart_TypedData_Type"))
                            ∷ ("length", intptr_t)
                            ∷ ("values", (pointer (const (uint_t 8))))
                            ∷ []))),
                    )
                    ∷ (
                      "as_external_typed_data",
                      (structure (
                          fields (
                            ("type", (name "Dart_TypedData_Type"))
                            ∷ ("length", intptr_t)
                            ∷ ("data", (pointer (uint_t 8)))
                            ∷ ("peer", (pointer void))
                            ∷ ("callback", (name "Dart_HandleFinalizer"))
                            ∷ []))),
                    )
                    ∷ (
                      "as_native_pointer",
                      (structure (
                          fields (
                            ("ptr", intptr_t)
                            ∷ ("size", intptr_t)
                            ∷ ("callback", (name "Dart_HandleFinalizer"))
                            ∷ []))),
                    )
                    ∷ []))),
            )
            ∷ [])))
    ∷ []

-- Posting messages, and native ports.
unfoldable pub native_ports : List Declaration
native_ports =
    prototype "Dart_PostCObject" bool
      (("port_id", (name "Dart_Port")) ∷ ("message", (pointer (name "Dart_CObject"))) ∷ [])
    ∷ prototype "Dart_PostInteger" bool
        (("port_id", (name "Dart_Port")) ∷ ("message", (int_t 64)) ∷ [])
    ∷ typedef "Dart_NativeMessageHandler" (
        pointer (
          function void (
            params (
              ("dest_port_id", (name "Dart_Port"))
              ∷ ("message", (pointer (name "Dart_CObject")))
              ∷ []))))
    ∷ prototype "Dart_NewNativePort" (name "Dart_Port") (
        ("name", (pointer (const char)))
        ∷ ("handler", (name "Dart_NativeMessageHandler"))
        ∷ ("handle_concurrently", bool)
        ∷ [])
    ∷ prototype "Dart_CloseNativePort" bool (("native_port_id", (name "Dart_Port")) ∷ [])
    ∷ prototype "Dart_CompileAll" (name "Dart_Handle") []
    ∷ prototype "Dart_FinalizeAllClasses" (name "Dart_Handle") []
    ∷ prototype "Dart_ExecuteInternalCommand" (pointer void)
        (("command", (pointer (const char))) ∷ ("arg", (pointer void)) ∷ [])
    ∷ []
