-- ===== src/Dlq/Store/Fingerprint.antt =====
-- The text that is hashed for a payload determines the payload.
use smtp_to_max_relay.Prelude.{
  ℕ, ◌/◌, ◌%◌, ◌<◌, Bool, true, false, not, List, [], ◌∷◌, ◌++◌, ◌≡◌, refl, ap, arith, ◌==◌, all,
  all-append, All,
}
use smtp_to_max_relay.Prelude.Text.{Text}
use smtp_to_max_relay.Dlq.Item.{hex_digit, hex, fingerprint_input}
use smtp_to_max_relay.Dlq.Store.{payload_fingerprint}

abbrev pub IsBytes : List ℕ → Type 0
IsBytes = All (λ b. b < 256)

hex_digit-injective : (m n : ℕ) → m < 16 → n < 16 → hex_digit m ≡ hex_digit n → m ≡ n
unfolding hex_digit
hex_digit-injective m n h k e = ground arith

hex_digit_no_bar : (n : ℕ) → n < 16 → (hex_digit n == b'|') ≡ false
unfolding hex_digit
hex_digit_no_bar n h = ground arith

not_bar : ℕ → Bool
not_bar c = not (c == b'|')

hex_no_bar : (raw : List ℕ) → IsBytes raw → all not_bar (hex raw) ≡ true
unfolding hex not_bar
hex_no_bar [] h = refl
hex_no_bar (b ∷ raw) h = ground (
  arith,
  hex_digit_no_bar (b / 16) (omega arith),
  hex_digit_no_bar (b % 16) (omega arith),
  hex_no_bar raw h.1,
)

hex-injective : (a b : List ℕ) → IsBytes a → IsBytes b → hex a ≡ hex b → a ≡ b
unfolding hex
hex-injective [] [] h k e = refl
hex-injective [] (y ∷ b) h k e = cc
hex-injective (x ∷ a) [] h k e = cc
hex-injective (x ∷ a) (y ∷ b) h k e = ground (
  arith,
  hex_digit-injective (x / 16) (y / 16) (omega arith) (omega arith),
  hex_digit-injective (x % 16) (y % 16) (omega arith) (omega arith),
  hex-injective a b h.1 k.1,
)

-- A bar cannot stand in the hexadecimal part.
bar_clash : (raw raw' : List ℕ) (r : Text) → IsBytes raw → hex raw ≡ r ++ (b'|' ∷ hex raw') → ⊥
unfolding not_bar
bar_clash raw raw' r h e =
    ground (arith, ap (all not_bar) e, hex_no_bar raw h, all-append not_bar r (b'|' ∷ hex raw'))

input-injective :
    (r r' : Text) (raw raw' : List ℕ)
    → IsBytes raw
    → IsBytes raw'
    → r ++ (b'|' ∷ hex raw) ≡ r' ++ (b'|' ∷ hex raw')
    → (r ≡ r') × (raw ≡ raw')
input-injective [] [] raw raw' h k e = (refl, hex-injective raw raw' h k (ground arith))
input-injective [] (c ∷ r') raw raw' h k e = absurd (bar_clash raw raw' r' h (ground arith))
input-injective (c ∷ r) [] raw raw' h k e = absurd (bar_clash raw' raw r k (ground arith))
input-injective (c ∷ r) (c' ∷ r') raw raw' h k e = ground (arith, input-injective r r' raw raw' h k)

-- Equal fingerprints come from one recipient and one message, if the hash does not collide on
-- the two texts that are hashed.
pub payload_fingerprint-injective :
    (sha256_hex : Text → Text) (r r' : Text) (raw raw' : List ℕ)
    → IsBytes raw
    → IsBytes raw'
    → (sha256_hex (fingerprint_input r raw) ≡ sha256_hex (fingerprint_input r' raw')
        → fingerprint_input r raw ≡ fingerprint_input r' raw')
    → payload_fingerprint sha256_hex r raw ≡ payload_fingerprint sha256_hex r' raw'
    → (r ≡ r') × (raw ≡ raw')
unfolding payload_fingerprint fingerprint_input
payload_fingerprint-injective sha256_hex r r' raw raw' h k collision_free e =
    input-injective r r' raw raw' h k (collision_free e)
