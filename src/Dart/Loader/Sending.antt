-- ===== src/Dart/Loader/Sending.antt =====
-- What sending strings does once the loader has run, and without it.
use hiddify_core.Prelude.{ℕ, ℤ, String, ◌≡◌, refl, ◌∙◌, true, List, [], ◌∷◌, arith, if◌then◌else◌}
use hiddify_core.Dart.Symbols.{dl_symbols, deprecated_dl_symbols}
use hiddify_core.Dart.Loader.{
  Outcome, returns, undefined, ◌>>=◌, null, vm, DartApi, CObject, k_string, World, Vm,
  dart_api_dl_major_version, initialize_dart_api, send_string_to_port,
}
use hiddify_core.Dart.Loader.Binding.{is_terminated, exported, lookup, bound, initialize-binds}

abbrev pub string_object : String → CObject
string_object msg = record { type = k_string; as_string = msg }

-- A Go program's calls of the bridge: the API is initialized once, then strings are sent.
pub send_all : Vm → List (ℤ × String) → World → Outcome World
send_all vm_post [] w = returns w
send_all vm_post ((port, msg) ∷ rest) w = do
  w' ← send_string_to_port vm_post port msg w
  send_all vm_post rest w'

pub session : Vm → DartApi → List (ℤ × String) → World → Outcome World
unfolding send_all
session vm_post api sends w = do
  g ← initialize_dart_api api w.globals
  send_all vm_post sends (record w { globals = g })

-- What a list of sends adds to the world, when the messages go to the function at `a`.
abbrev pub after_sends : Vm → ℕ → List (ℤ × String) → World → World
after_sends vm_post a [] w = w
after_sends vm_post a ((port, msg) ∷ rest) w = after_sends vm_post a rest (record w {
  posted = (port, string_object msg) ∷ w.posted;
  strings = msg ∷ w.strings;
  failures = if vm_post a port (string_object msg) then w.failures else (port, msg) ∷ w.failures;
})

send_string_to_port_lem :
    (vm_post : Vm) (a : ℕ) (port : ℤ) (msg : String) (w : World)
    → w.globals "Dart_PostCObject" ≡ vm a
    → send_string_to_port vm_post port msg w ≡ returns (after_sends vm_post a ((port, msg) ∷ []) w)
unfolding send_string_to_port
send_string_to_port_lem vm_post a port msg w h = ground arith

send_all_lem :
    (vm_post : Vm) (a : ℕ) (sends : List (ℤ × String)) (w : World)
    → w.globals "Dart_PostCObject" ≡ vm a
    → send_all vm_post sends w ≡ returns (after_sends vm_post a sends w)
unfolding send_all
send_all_lem vm_post a [] w h = refl
send_all_lem vm_post a ((port, msg) ∷ rest) w h =
    rw (send_string_to_port_lem vm_post a port msg w h)
      (send_all_lem vm_post a rest (after_sends vm_post a ((port, msg) ∷ []) w) h)

send_all_null :
    (vm_post : Vm) (port : ℤ) (msg : String) (rest : List (ℤ × String)) (w : World)
    → w.globals "Dart_PostCObject" ≡ null
    → send_all vm_post ((port, msg) ∷ rest) w ≡ undefined
unfolding send_all send_string_to_port
send_all_null vm_post port msg rest w h = ground arith

initialize_dart_api_lem :
    (api : DartApi) (w : World)
    → api.major ≡ dart_api_dl_major_version
    → is_terminated api.functions ≡ true
    → initialize_dart_api api w.globals ≡ returns (bound api.functions w.globals)
unfolding initialize_dart_api
initialize_dart_api_lem api w v t = rw (initialize-binds api w.globals v t)

bound-post :
    (api : DartApi) (w : World)
    → bound api.functions w.globals "Dart_PostCObject"
      ≡ lookup "Dart_PostCObject" (exported api.functions)
unfolding dl_symbols deprecated_dl_symbols
bound-post api w = refl

module _ (vm_post : Vm) (api : DartApi) (w : World)
    (version : api.major ≡ dart_api_dl_major_version)
    (ends : is_terminated api.functions ≡ true) where
  -- After the API is initialized from a table of the right major version that ends and exports
  -- Dart_PostCObject, any sequence of sends returns: each message is posted once, in order, as a
  -- string object on its port; exactly the messages that the VM refuses are reported; and the C
  -- string of every message stays allocated.
  pub session-posts :
      (a : ℕ) (sends : List (ℤ × String))
      → lookup "Dart_PostCObject" (exported api.functions) ≡ vm a
      → session vm_post api sends w
        ≡ returns
            (after_sends vm_post a sends (record w { globals = bound api.functions w.globals }))
  unfolding session
  session-posts a sends h = rw (initialize_dart_api_lem api w version ends) (
      send_all_lem vm_post a sends (record w { globals = bound api.functions w.globals })
        (bound-post api w ∙ h))

  -- A table that does not export Dart_PostCObject is accepted by the initialization, and the first
  -- send after it is a call through a null pointer.
  session-missing :
      (port : ℤ) (msg : String) (rest : List (ℤ × String))
      → lookup "Dart_PostCObject" (exported api.functions) ≡ null
      → (initialize_dart_api api w.globals ≡ returns (bound api.functions w.globals))
        × (session vm_post api ((port, msg) ∷ rest) w ≡ undefined)
  unfolding session
  session-missing port msg rest h = (
    initialize_dart_api_lem api w version ends,
    rw (initialize_dart_api_lem api w version ends) (
        send_all_null vm_post port msg rest (record w { globals = bound api.functions w.globals })
          (bound-post api w ∙ h)),
  )
