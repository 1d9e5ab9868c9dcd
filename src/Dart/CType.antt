-- ===== src/Dart/CType.antt =====
-- The C types in which bridge/include declares its functions, and the declarations themselves.
use hiddify_core.Prelude.{ℕ, String, List, [], ◌∷◌, ◌==◌, if◌then◌else◌}

mutual
  pub data CType : Type 0 where
    void bool char int double intptr_t uintptr_t : CType
    int_t uint_t : ℕ → CType
    -- a typedef's name, and a struct's tag
    name tag : String → CType
    const pointer : CType → CType
    function : CType → Params → CType
    structure union : Fields → CType
    enumeration : List String → CType

  -- the types of a function's parameters: their names are no part of its type
  pub data Params : Type 0 where
    done : Params
    param : CType → Params → Params

  pub data Fields : Type 0 where
    end : Fields
    field : String → CType → Fields → Fields

abbrev pub params : List (String × CType) → Params
params [] = done
params ((n, t) ∷ rest) = param t (params rest)

abbrev pub fields : List (String × CType) → Fields
fields [] = end
fields ((n, t) ∷ rest) = field n t (fields rest)

pub data Declaration : Type 0 where
  typedef : String → CType → Declaration
  prototype : String → CType → List (String × CType) → Declaration

-- A symbol with its type: what a header's prototype declares and what the loader binds.
pub record Symbol : Type 0 where
  pub name : String
  pub type : CType

abbrev pub symbol : String → CType → List (String × CType) → Symbol
symbol n result arguments = record { name = n; type = function result (params arguments) }

-- The symbols that a list of declarations declares.
unfoldable pub symbols : List Declaration → List Symbol
symbols [] = []
symbols (typedef _ _ ∷ ds) = symbols ds
symbols (prototype n result params ∷ ds) = symbol n result params ∷ symbols ds

pub record Typedef : Type 0 where
  pub name : String
  pub type : CType

-- The typedefs of a list of declarations, the last one first: each may use those behind it.
unfoldable pub typedefs_onto : List Typedef → List Declaration → List Typedef
typedefs_onto acc [] = acc
typedefs_onto acc (typedef n t ∷ ds) = typedefs_onto (record { name = n; type = t } ∷ acc) ds
typedefs_onto acc (prototype _ _ _ ∷ ds) = typedefs_onto acc ds

unfoldable mutual
  pub expand : Typedef → CType → CType
  expand d (name n) = if n == d.name then d.type else name n
  expand d (const t) = const (expand d t)
  expand d (pointer t) = pointer (expand d t)
  expand d (function r ps) = function (expand d r) (expand_params d ps)
  expand d (structure fs) = structure (expand_fields d fs)
  expand d (union fs) = union (expand_fields d fs)
  expand d t = t

  pub expand_params : Typedef → Params → Params
  expand_params d done = done
  expand_params d (param t ps) = param (expand d t) (expand_params d ps)

  pub expand_fields : Typedef → Fields → Fields
  expand_fields d end = end
  expand_fields d (field n t fs) = field n (expand d t) (expand_fields d fs)

-- A type with all typedefs expanded, the newest first.
unfoldable pub resolve : List Typedef → CType → CType
unfolding expand expand_params expand_fields
resolve [] t = t
resolve (d ∷ ds) t = resolve ds (expand d t)
