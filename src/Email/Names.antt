-- ===== src/Email/Names.antt =====
-- internal/email/parser.go: the names of attachments that have none.
use smtp_to_max_relay.Prelude.{ℕ, Bool, true, false, not, ◌||◌, [], ◌∷◌, ◌≡◌, refl, arith, all}
use smtp_to_max_relay.Prelude.Text.{Text, trim, trim_space, trim_left, trim_right}
use smtp_to_max_relay.Prelude.Text.Laws.{all-trim}
use smtp_to_max_relay.Email.{is_token_rune, dashed, is_angle, is_dash, sanitize_attachment_token}

-- A letter or a digit of ASCII, or a dash.
abbrev pub is_safe : ℕ → Bool
is_safe c = is_token_rune c || is_dash c

all-dashed : (last_dash : Bool) (value : Text) → all is_safe (dashed last_dash value) ≡ true
unfolding dashed
all-dashed last_dash [] = refl
all-dashed last_dash (r ∷ value) = ground (arith, all-dashed false value, all-dashed true value)

-- The first character, if there is one, fails the test.
unfoldable pub head_fails : (ℕ → Bool) → Text → Bool
head_fails p [] = true
head_fails p (c ∷ s) = not (p c)

trim_left-head_fails : (p : ℕ → Bool) (s : Text) → head_fails p (trim_left p s) ≡ true
unfolding trim_left head_fails
trim_left-head_fails p [] = refl
trim_left-head_fails p (c ∷ s) = ground (arith, trim_left-head_fails p s)

trim_right-head_fails :
    (p : ℕ → Bool) (s : Text) → head_fails p s ≡ true → head_fails p (trim_right p s) ≡ true
unfolding trim_right head_fails
trim_right-head_fails p [] h = refl
trim_right-head_fails p (c ∷ s) h = ground (arith, h)

-- A name made of a content or part id, whatever the id is, holds letters and digits of ASCII and dashes
-- only, so no path separator and no dot, and does not begin with a dash.
pub sanitize_attachment_token_lem :
    (value : Text)
    → (all is_safe (sanitize_attachment_token value) ≡ true)
      × (head_fails is_dash (sanitize_attachment_token value) ≡ true)
unfolding sanitize_attachment_token
sanitize_attachment_token_lem value =
    let raw = dashed false (trim is_angle (trim_space value)) in
    (
      all-trim is_dash is_safe raw (all-dashed false (trim is_angle (trim_space value))),
      trim_right-head_fails is_dash (trim_left is_dash raw) (trim_left-head_fails is_dash raw),
    )
