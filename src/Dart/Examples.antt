-- ===== src/Dart/Examples.antt =====
-- The loader and the bridge on a concrete table.
use hiddify_core.Prelude.{pos, ◌≡◌, refl, true, none, some, List, [], ◌∷◌, Memᴰ}
use hiddify_core.Dart.CType.{Symbol, symbol, void, intptr_t, name}
use hiddify_core.Dart.Loader.{
  returns, null, vm, DartApiEntry, DartApi, initial, World, Vm, dart_initialize_api_dl,
}
use hiddify_core.Dart.Loader.Binding.{bound, initialize-binds}
use hiddify_core.Dart.Loader.Sending.{session, after_sends, session-posts}

abbrev entries : List DartApiEntry
entries =
    record { name = some "Dart_PostInteger"; function = vm 20 }
    ∷ record { name = some "Dart_PostCObject"; function = vm 10 }
    ∷ record { name = none; function = null }
    ∷ []

abbrev api : DartApi
api = record { major = pos 2; minor = pos 0; functions = entries }

abbrev world : World
world = record { globals = initial; posted = []; strings = []; failures = [] }

abbrev accept : Vm
accept a port obj = true

update_external_size : Symbol
update_external_size =
    symbol "Dart_UpdateExternalSize" void
      (("object", name "Dart_WeakPersistentHandle") ∷ ("external_allocation_size", intptr_t) ∷ [])

initialize-binds_example :
    dart_initialize_api_dl api initial ≡ returns (pos 0, bound entries initial)
initialize-binds_example = initialize-binds api initial refl refl

session-posts_example :
    session accept api ((pos 5, "hi") ∷ []) world
    ≡ returns (
        after_sends accept 10
          ((pos 5, "hi") ∷ [])
          (record world { globals = bound entries initial }))
session-posts_example = session-posts accept api world refl refl 10 ((pos 5, "hi") ∷ []) refl
