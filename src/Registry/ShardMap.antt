-- ===== src/Registry/ShardMap.antt =====
-- The map of the package `mapx`, which is not part of the repository, with string keys.
use signalg.Base.{ℕ, ◌≡◌, if◌then◌else◌, List, Bytes, bytes_eq, length, Option, none, some}
use signalg.Base.Assoc.{lookup, DistinctKeys}

pub record ShardMap : Type 1 where
  pub Map : Type 0 → Type 0
  pub new : {V : Type 0} → Map V
  pub get : {V : Type 0} → Map V → Bytes → Option V
  pub set : {V : Type 0} → Map V → Bytes → V → Map V
  pub delete : {V : Type 0} → Map V → Bytes → Map V
  pub len : {V : Type 0} → Map V → ℕ
  -- what `Range` visits, in the order in which it does
  pub entries : {V : Type 0} → Map V → List (Bytes × V)

-- What the registry relies on, with no call running beside another: a key has the value that was
-- set last, `Range` visits each key once with its value, and `Len` counts the keys.
pub record IsMap (lib : ShardMap) : Type 1 where
  pub get-new : {V : Type 0} (k : Bytes) → ◌≡◌ {A = Option V} (lib.get lib.new k) none
  pub get-set :
      {V : Type 0} (m : lib.Map V) (k j : Bytes) (v : V)
      → lib.get (lib.set m k v) j ≡ (if bytes_eq k j then some v else lib.get m j)
  pub get-delete :
      {V : Type 0} (m : lib.Map V) (k j : Bytes)
      → lib.get (lib.delete m k) j ≡ (if bytes_eq k j then none else lib.get m j)
  pub lookup-entries :
      {V : Type 0} (m : lib.Map V) (k : Bytes) → lookup k (lib.entries m) ≡ lib.get m k
  pub entries-DistinctKeys : {V : Type 0} (m : lib.Map V) → DistinctKeys (lib.entries m)
  pub len-entries : {V : Type 0} (m : lib.Map V) → lib.len m ≡ length (lib.entries m)
