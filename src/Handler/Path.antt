-- ===== src/Handler/Path.antt =====
-- `normalizePath` of server.go.
use signalg.Base.{
  ◌≡◌, refl, Bool, true, false, if◌then◌else◌, Bool-cases, is_empty, [], ◌∷◌, Bytes, ◌==◌, inl, inr,
}
use signalg.Text.{trim_space}

-- "/signalg".
abbrev pub default_path : Bytes
default_path = b'/' ∷ b's' ∷ b'i' ∷ b'g' ∷ b'n' ∷ b'a' ∷ b'l' ∷ b'g' ∷ []

-- `strings.HasPrefix(p, "/")`.
abbrev pub is_rooted : Bytes → Bool
is_rooted [] = false
is_rooted (b ∷ bs) = b == b'/'

-- `clean` is `path.Clean`.
unfoldable pub normalize_path : (Bytes → Bytes) → Bytes → Bytes
normalize_path clean p =
    let t = trim_space p in
    if is_empty t then default_path else clean (if is_rooted t then t else b'/' ∷ t)

-- What is documented of `path.Clean`: it leaves a rooted path rooted, and a clean path as it is; the
-- default path is clean.
pub record IsClean (clean : Bytes → Bytes) : Type 0 where
  pub rooted : (p : Bytes) → is_rooted p ≡ true → is_rooted (clean p) ≡ true
  pub clean_clean : (p : Bytes) → clean (clean p) ≡ clean p
  pub clean_default : clean default_path ≡ default_path

-- Whatever path is configured, the path that the handler serves is rooted and clean.
pub normalize_path-is_rooted :
    (clean : Bytes → Bytes)
    → IsClean clean
    → (p : Bytes)
    → (is_rooted (normalize_path clean p) ≡ true)
      × (clean (normalize_path clean p) ≡ normalize_path clean p)
unfolding normalize_path
normalize_path-is_rooted clean laws p = elim (Bool-cases (is_empty (trim_space p))) [
  | inl e ↦ rw (e, normalize_path) (refl, laws.clean_default)
  | inr e ↦ elim (Bool-cases (is_rooted (trim_space p))) [
    | inl r ↦ rw (e, r, normalize_path) (laws.rooted (trim_space p) r, laws.clean_clean _)
    | inr r ↦ rw (e, r, normalize_path) (laws.rooted (b'/' ∷ trim_space p) refl, laws.clean_clean _)
  ]
]
