-- ===== src/Registry/Types.antt =====
-- The state of the registry, and the keys of connections and groups.
use signalg.Base.{
  ℕ, zero, suc, ◌+◌, ◌-◌, ◌/◌, ◌%◌, ◌==◌, ◌≡◌, true, ◌&&◌, arith, bytes_eq, bytes_eq_iff, ltb,
  if◌then◌else◌, is_empty, Bool, List, [], ◌∷◌, Bytes,
}
use signalg.Base.Assoc.{bytes_eq_self}
use signalg.Base.Int.{ℤ}
use signalg.Text.{trim_space}
use signalg.Registry.ShardMap.{ShardMap}

-- A `*Connection` that is not nil, by its address, with the fields that the registry reads.
pub record Conn : Type 0 where
  pub addr : ℕ
  pub id : Bytes
  pub user_id : Bytes

-- A `*registryEntry`. `entry_id` stands for its address; `groups` holds the keys of the Go map.
pub record RegistryEntry : Type 0 where
  pub entry_id : ℕ
  pub conn : Conn
  pub last_seen : ℤ  -- Unix time in nanoseconds
  pub groups : List Bytes

pub record Registry (lib : ShardMap) : Type 0 where
  pub connections : lib.Map RegistryEntry
  pub user_conn_index : lib.Map (lib.Map Conn)
  pub group_conn_index : lib.Map (lib.Map Conn)
  pub next_entry : ℕ

unfoldable pub new_connection_registry : (lib : ShardMap) → Registry lib
new_connection_registry lib = record {
  connections = lib.new;
  user_conn_index = lib.new;
  group_conn_index = lib.new;
  next_entry = 0;
}

-- `a == b` of two pointers. Equal addresses hold equal fields, which are compared as well, so that
-- the test is equality of the records.
unfoldable pub same_conn : Conn → Conn → Bool
same_conn a b = (a.addr == b.addr) && bytes_eq a.id b.id && bytes_eq a.user_id b.user_id

pub eq_of_same_conn : (a b : Conn) → same_conn a b ≡ true → a ≡ b
unfolding same_conn
eq_of_same_conn a b h = ground (arith, bytes_eq_iff a.id b.id, bytes_eq_iff a.user_id b.user_id)

pub same_conn_self : (a : Conn) → same_conn a a ≡ true
unfolding same_conn
same_conn_self a = ground (arith, bytes_eq_self a.id, bytes_eq_self a.user_id)

hex_digit : ℕ → ℕ
hex_digit d = if ltb d 10 then b'0' + d else b'a' + d - 10

-- The digits in front of `acc`. An address has 16 digits at most.
hex_digits : ℕ → ℕ → Bytes → Bytes
unfolding hex_digit
hex_digits zero n acc = acc
hex_digits (suc fuel) n acc =
    let rest = hex_digits fuel (n / 16) (hex_digit (n % 16) ∷ acc) in
    if ltb n 16 then hex_digit n ∷ acc else rest

-- `fmt.Sprintf("%p", conn)`.
unfoldable pub pointer_text : ℕ → Bytes
unfolding hex_digits
pointer_text addr = b'0' ∷ b'x' ∷ hex_digits 16 addr []

unfoldable pub connection_key : Conn → Bytes
connection_key conn = if is_empty conn.id then pointer_text conn.addr else conn.id

unfoldable pub normalize_group : Bytes → Bytes
normalize_group group = trim_space group
