-- ===== src/Dart/Loader.antt =====
-- bridge/include/dart_api_dl.c and bridge/bridge.go: binding the symbols of the Dart VM, and sending
-- a string to a port of it. The proofs are in the modules below.
pub mod Binding
pub mod Sending
use hiddify_core.Prelude.{
  ℕ, ℤ, pos, negsuc, int_eq, String, Bool, Option, none, some, List, [], ◌∷◌, ◌==◌, if◌then◌else◌,
}
use hiddify_core.Dart.CType.{Symbol}
use hiddify_core.Dart.Symbols.{dl_symbols, deprecated_dl_symbols}

-- What a run of C or Go code ends in; `undefined` is undefined behaviour in C, such as a call
-- through a null pointer.
pub data Outcome (A : Type 0) : Type 0 where
  returns : A → Outcome A
  panics : Outcome A
  undefined : Outcome A

infixl 5 ◌>>=◌
abbrev pub ◌>>=◌ : {A B : Type 0} → Outcome A → (A → Outcome B) → Outcome B
returns a >>= f = f a
panics >>= f = panics
undefined >>= f = undefined

-- A function pointer: null, an address in the VM, or a `_Deprecated` function of dart_api_dl.c.
pub data Pointer : Type 0 where
  null : Pointer
  vm : ℕ → Pointer
  deprecated : String → Pointer

-- The table that the VM hands over; the entry with no name is the terminator.
pub record DartApiEntry : Type 0 where
  pub name : Option String
  pub function : Pointer

pub record DartApi : Type 0 where
  pub major : ℤ
  pub minor : ℤ
  pub functions : List DartApiEntry

-- The global variable of each symbol, `Dart_Post_DL` under the name `Dart_Post`.
abbrev pub Globals : Type 0
Globals = String → Pointer

-- the definitions of the variables, each with `= NULL`
abbrev pub initial : Globals
initial n = null

abbrev pub update : Globals → String → Pointer → Globals
update g n p m = if n == m then p else g m

abbrev pub dart_api_dl_major_version : ℤ
dart_api_dl_major_version = pos 2

-- The `while` loop walks the entries up to the terminator. Past the last one it reads memory that
-- is not the table's.
find_function_pointer : List DartApiEntry → String → Outcome Pointer
find_function_pointer [] name = undefined
find_function_pointer (e ∷ es) name = elim e.name [
  | none ↦ returns null
  | some n ↦ if n == name then returns e.function else find_function_pointer es name
]

-- DART_API_ALL_DL_SYMBOLS(DART_API_DL_INIT)
dl_init : List Symbol → List DartApiEntry → Globals → Outcome Globals
dl_init [] entries g = returns g
dl_init (s ∷ ss) entries g = do
  p ← find_function_pointer entries s.name
  dl_init ss entries (update g s.name p)

-- DART_API_DEPRECATED_DL_SYMBOLS(DART_API_DEPRECATED_DL_INIT)
deprecated_dl_init : List Symbol → Globals → Globals
deprecated_dl_init [] g = g
deprecated_dl_init (s ∷ ss) g = deprecated_dl_init ss (update g s.name (deprecated s.name))

pub dart_initialize_api_dl : DartApi → Globals → Outcome (ℤ × Globals)
dart_initialize_api_dl api g =
    if int_eq api.major dart_api_dl_major_version
    then (do
      g' ← dl_init dl_symbols api.functions g
      returns (pos 0, deprecated_dl_init deprecated_dl_symbols g'))
    else returns (negsuc 0, g)

-- `InitializeDartApi` of bridge.go
pub initialize_dart_api : DartApi → Globals → Outcome Globals
initialize_dart_api api g = do
  r ← dart_initialize_api_dl api g
  if int_eq r.0 (pos 0) then returns r.1 else panics

-- Dart_CObject_Type
pub data CObjectType : Type 0 where
  k_null k_bool k_int32 k_int64 k_double k_string k_array k_typed_data k_external_typed_data
        k_send_port k_capability k_native_pointer k_unsupported k_unmodifiable_external_typed_data
        k_number_of_types :
      CObjectType

-- The fields of a `Dart_CObject` that bridge.go writes.
pub record CObject : Type 0 where
  pub type : CObjectType
  pub as_string : String

-- The native side: the variables of the loader, the messages that the VM was handed (the newest
-- first), the C strings that were allocated and not freed, and what was printed.
pub record World : Type 0 where
  pub globals : Globals
  pub posted : List (ℤ × CObject)
  pub strings : List String
  pub failures : List (ℤ × String)

-- The VM's own functions, by address: whether `Dart_PostCObject` there takes a message.
abbrev pub Vm : Type 0
Vm = ℕ → ℤ → CObject → Bool

-- GoDart_PostCObject. The deprecated functions have other types, so a call of one as this function
-- is undefined too.
go_dart_post_c_object : Vm → ℤ → CObject → World → Outcome (Bool × World)
go_dart_post_c_object vm_post port obj w = elim (w.globals "Dart_PostCObject") [
  | null ↦ undefined
  | vm a ↦ returns (vm_post a port obj, record w { posted = (port, obj) ∷ w.posted })
  | deprecated n ↦ undefined
]

-- `SendStringToPort` of bridge.go; `C.CString` allocates, and nothing frees.
pub send_string_to_port : Vm → ℤ → String → World → Outcome World
unfolding go_dart_post_c_object
send_string_to_port vm_post port msg w = do
  let obj : CObject = record { type = k_string; as_string = msg }
  let w' : World = record w { strings = msg ∷ w.strings }
  r ← go_dart_post_c_object vm_post port obj w'
  if r.0 then returns r.1 else returns (record (r.1) { failures = (port, msg) ∷ r.1.failures })
