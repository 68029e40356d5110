-- ===== src/Protocol/Names.antt =====
-- The `String` methods of `Serialization` and `FrameKind` in protocol.go.
use signalg.Base.{
  ℕ, zero, suc, ◌+◌, ◌/◌, ◌%◌, ◌<◌, ◌≡◌, refl, ◌==◌, ==_iff, ltb, if◌then◌else◌, true, [], ◌∷◌,
  Bytes, bytes_eq, sym, ap, ◌∙◌,
}
use signalg.Base.Bits.{holds_under, holds_at}
use signalg.Protocol.Types.{
  serialization_message_pack, serialization_protobuf, serialization_json, frame_kind_message,
  frame_kind_invoke, frame_kind_completion, frame_kind_error, frame_kind_ping, frame_kind_pong,
}

-- `%d` of a uint8, in front of `acc`; three digits are enough.
decimal : ℕ → ℕ → Bytes → Bytes
decimal zero n acc = acc
decimal (suc fuel) n acc =
    let rest = decimal fuel (n / 10) ((b'0' + n % 10) ∷ acc) in
    if ltb n 10 then (b'0' + n) ∷ acc else rest

-- "unknown(%d)".
unfoldable pub unknown : ℕ → Bytes
unfolding decimal
unknown n = b'u' ∷ b'n' ∷ b'k' ∷ b'n' ∷ b'o' ∷ b'w' ∷ b'n' ∷ b'(' ∷ decimal 3 n (b')' ∷ [])

unfoldable pub serialization_string : ℕ → Bytes
unfolding unknown
serialization_string s =
    if s == serialization_message_pack
    then b'm' ∷ b'e' ∷ b's' ∷ b's' ∷ b'a' ∷ b'g' ∷ b'e' ∷ b'p' ∷ b'a' ∷ b'c' ∷ b'k' ∷ []
    else if s == serialization_protobuf
    then b'p' ∷ b'r' ∷ b'o' ∷ b't' ∷ b'o' ∷ b'b' ∷ b'u' ∷ b'f' ∷ []
    else if s == serialization_json
    then b'j' ∷ b's' ∷ b'o' ∷ b'n' ∷ []
    else unknown s

unfoldable pub kind_string : ℕ → Bytes
unfolding unknown
kind_string k =
    if k == frame_kind_message
    then b'm' ∷ b'e' ∷ b's' ∷ b's' ∷ b'a' ∷ b'g' ∷ b'e' ∷ []
    else if k == frame_kind_invoke
    then b'i' ∷ b'n' ∷ b'v' ∷ b'o' ∷ b'k' ∷ b'e' ∷ []
    else if k == frame_kind_completion
    then b'c' ∷ b'o' ∷ b'm' ∷ b'p' ∷ b'l' ∷ b'e' ∷ b't' ∷ b'i' ∷ b'o' ∷ b'n' ∷ []
    else if k == frame_kind_error
    then b'e' ∷ b'r' ∷ b'r' ∷ b'o' ∷ b'r' ∷ []
    else if k == frame_kind_ping
    then b'p' ∷ b'i' ∷ b'n' ∷ b'g' ∷ []
    else if k == frame_kind_pong
    then b'p' ∷ b'o' ∷ b'n' ∷ b'g' ∷ []
    else unknown k

-- The number below `n` that has a name, the last of them.
find_name : (ℕ → Bytes) → ℕ → Bytes → ℕ
find_name name zero text = 0
find_name name (suc n) text = if bytes_eq (name n) text then n else find_name name n text

kinds_found : holds_under (λ k. find_name kind_string 256 (kind_string k) == k) 256 ≡ true
unfolding holds_under find_name kind_string bytes_eq
kinds_found = refl

serializations_found :
    holds_under (λ s. find_name serialization_string 256 (serialization_string s) == s) 256 ≡ true
unfolding holds_under find_name serialization_string bytes_eq
serializations_found = refl

-- Two frame kinds have different names, and so have two serializations, unknown ones among them.
pub kind_string-injective : (k j : ℕ) → k < 256 → j < 256 → kind_string k ≡ kind_string j → k ≡ j
kind_string-injective k j p q e =
    let found = λ (x : ℕ) (h : x < 256). (==_iff _ x).0 (holds_at _ 256 x h kinds_found) in
    sym (found k p) ∙ ap (find_name kind_string 256) e ∙ found j q

pub serialization_string-injective :
    (s t : ℕ) → s < 256 → t < 256 → serialization_string s ≡ serialization_string t → s ≡ t
serialization_string-injective s t p q e =
    let found = λ (x : ℕ) (h : x < 256). (==_iff _ x).0 (holds_at _ 256 x h serializations_found) in
    sym (found s p) ∙ ap (find_name serialization_string 256) e ∙ found t q
