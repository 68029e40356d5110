-- ===== src/Dispatcher/Reflect.antt =====
-- What dispatcher.go sees of the package `reflect`, which is a parameter.
use signalg.Base.{ℕ, Bool, List, Bytes}

-- A `reflect.Method`: `ins` and `outs` are the types of `method.Type`, the receiver first, and
-- `func` is the number of its function.
pub record Method (Ty : Type 0) : Type 0 where
  pub name : Bytes
  pub func : ℕ
  pub ins : List Ty
  pub outs : List Ty

-- `Value` is a Go value that is not nil. `methods` is what `Methods` yields of a hub's type, which
-- stands by a number.
pub record Reflection (Value : Type 0) : Type 1 where
  pub Ty : Type 0
  -- `== contextType`
  pub is_context : Ty → Bool
  -- `Kind() == reflect.Pointer`
  pub is_pointer : Ty → Bool
  -- `Implements(errorType)`
  pub implements_error : Ty → Bool
  -- `reflect.New(t.Elem()).Interface()`
  pub new_value : Ty → Value
  pub methods : ℕ → List (Method Ty)

-- The kinds that `isNilValue` tells apart.
pub data ReflectKind : Type 0 where
  chan func interface map pointer slice other : ReflectKind

-- A `reflect.Value` that a method returns.
pub record ReflectValue (Value : Type 0) : Type 0 where
  pub kind : ReflectKind
  pub is_nil : Bool  -- `IsNil()`, of a kind that has it
  pub value : Value  -- `Interface()`
