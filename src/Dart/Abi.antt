-- ===== src/Dart/Abi.antt =====
-- The symbol table of dart_api_dl.h against the prototypes that it copies.
use hiddify_core.Prelude.{
  String, ◌≡◌, ◌≢◌, Option, none, some, List, [], ◌∷◌, ◌++◌, Memᴰ, ◌==◌, if◌then◌else◌,
}
use mathlib.Core.Option
use hiddify_core.Dart.CType.{CType, Symbol, Typedef, symbols, typedefs_onto, resolve}
use hiddify_core.Dart.Header.{declarations}
use hiddify_core.Dart.Symbols.{dl_types}

-- Every prototype of the catalogued headers, and every typedef, those of dart_api_dl.h the last.
unfoldable pub header_symbols : List Symbol
unfolding symbols declarations
header_symbols = symbols declarations

unfoldable header_types : List Typedef
unfolding typedefs_onto declarations dl_types
header_types = typedefs_onto [] (declarations ++ dl_types)

unfoldable find : List Symbol → String → Option Symbol
find [] n = none
find (s ∷ ss) n = if s.name == n then some s else find ss n

-- A type with every typedef of the headers expanded.
unfoldable pub expanded : CType → CType
unfolding header_types resolve
expanded = resolve header_types

-- A prototype of the headers has the symbol's name and, with all typedefs expanded, its type.
abbrev pub SameAsPrototype : Symbol → Type 0
SameAsPrototype s =
    (p : Symbol) × Memᴰ p header_symbols × (p.name ≡ s.name) × (expanded p.type ≡ expanded s.type)

-- No prototype of the headers has the symbol's name.
abbrev pub NoPrototype : Symbol → Type 0
NoPrototype s = (p : Symbol) → Memᴰ p header_symbols → p.name ≢ s.name
