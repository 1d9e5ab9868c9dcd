-- ===== src/Dart/Loader/Binding.antt =====
-- What Dart_InitializeApiDL leaves in the variables.
use hiddify_core.Prelude.{
  pos, negsuc, int_eq_iff, ◌∙◌, String, ◌≡◌, ◌≢◌, refl, ap, Bool, true, false, none, some, List, [],
  ◌∷◌, any, arith, ◌==◌, eq_iff, if◌then◌else◌, ◌||◌,
}
use mathlib.Core.Path.{fun_ext}
use hiddify_core.Dart.CType.{Symbol}
use hiddify_core.Dart.Symbols.{dl_symbols, deprecated_dl_symbols}
use hiddify_core.Dart.Loader.{
  returns, panics, Pointer, null, deprecated, DartApiEntry, DartApi, Globals, update,
  dart_api_dl_major_version, find_function_pointer, dl_init, deprecated_dl_init,
  dart_initialize_api_dl, initialize_dart_api,
}

-- Some entry has no name, so the walk over the table ends.
abbrev pub is_terminated : List DartApiEntry → Bool
is_terminated [] = false
is_terminated (e ∷ es) = elim e.name [ none ↦ true | some _ ↦ is_terminated es ]

-- The entries before the terminator, as a dictionary.
abbrev pub exported : List DartApiEntry → List (String × Pointer)
exported [] = []
exported (e ∷ es) =
    let rest = exported es in elim e.name [ none ↦ [] | some n ↦ (n, e.function) ∷ rest ]

-- The pointer of a name's first occurrence, or null.
abbrev pub lookup : String → List (String × Pointer) → Pointer
lookup n [] = null
lookup n ((m, p) ∷ rest) = if m == n then p else lookup n rest

abbrev pub names : String → List Symbol → Bool
names n ss = any (λ s. s.name == n) ss

-- What each variable holds after the symbols were bound to a table.
abbrev pub bound : List DartApiEntry → Globals → Globals
bound entries g n =
    if names n deprecated_dl_symbols
    then deprecated n
    else if names n dl_symbols
    then lookup n (exported entries)
    else g n

find_function_pointer_lem :
    (es : List DartApiEntry) (n : String)
    → is_terminated es ≡ true
    → find_function_pointer es n ≡ returns (lookup n (exported es))
unfolding find_function_pointer
find_function_pointer_lem [] n h = cc
find_function_pointer_lem (e ∷ es) n h = ground (arith, find_function_pointer_lem es n)

-- One write before the others: they win, and agree with it where it stands.
update_first :
    (g : Globals) (m : String) (b : Bool) (f : String → Pointer) (n : String)
    → (if b then f n else update g m (f m) n) ≡ (if (m == n) || b then f n else g n)
update_first g m b f n = ground (arith, eq_iff m n, λ (e : m ≡ n). ap f e)

dl_init_lem :
    (ss : List Symbol) (es : List DartApiEntry) (g : Globals)
    → is_terminated es ≡ true
    → dl_init ss es g ≡ returns (λ n. if names n ss then lookup n (exported es) else g n)
unfolding dl_init
dl_init_lem [] es g h = refl
dl_init_lem (s ∷ ss) es g h = rw (find_function_pointer_lem es s.name h) (
    dl_init_lem ss es (update g s.name (lookup s.name (exported es))) h
    ∙ ap returns (fun_ext λ n. update_first g s.name (names n ss) (λ m. lookup m (exported es)) n))

deprecated_dl_init_lem :
    (ss : List Symbol) (g : Globals)
    → deprecated_dl_init ss g ≡ (λ n. if names n ss then deprecated n else g n)
unfolding deprecated_dl_init
deprecated_dl_init_lem [] g = refl
deprecated_dl_init_lem (s ∷ ss) g =
    deprecated_dl_init_lem ss (update g s.name (deprecated s.name))
    ∙ fun_ext λ n. update_first g s.name (names n ss) deprecated n

-- With the major version of the header and a table that ends, the call returns 0 whatever the minor
-- version. Each deprecated symbol then points to its `_Deprecated` function, every other symbol to
-- the first entry of its name before the terminator, or to null where there is none, and all other
-- variables are as they were.
pub initialize-binds :
    (api : DartApi) (g : Globals)
    → api.major ≡ dart_api_dl_major_version
    → is_terminated api.functions ≡ true
    → dart_initialize_api_dl api g ≡ returns (pos 0, bound api.functions g)
unfolding dart_initialize_api_dl
initialize-binds api g v t =
    rw
      (
        (int_eq_iff api.major dart_api_dl_major_version).1 v,
        dl_init_lem dl_symbols api.functions g t,
      )
      (ap (λ g'. returns (pos 0, g')) (deprecated_dl_init_lem deprecated_dl_symbols _))

-- With another major version the call returns -1 and writes no variable, whatever the table; the
-- Go side then panics.
initialize-refuses :
    (api : DartApi) (g : Globals)
    → api.major ≢ dart_api_dl_major_version
    → (dart_initialize_api_dl api g ≡ returns (negsuc 0, g)) × (initialize_dart_api api g ≡ panics)
unfolding dart_initialize_api_dl initialize_dart_api
initialize-refuses api g v = ground (arith, int_eq_iff api.major dart_api_dl_major_version)
