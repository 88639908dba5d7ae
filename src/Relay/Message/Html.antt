-- ===== src/Relay/Message/Html.antt =====
-- internal/relay/service.go: stripHTMLBasic.
use smtp_to_max_relay.Prelude.{
  ℕ, zero, Bool, true, not, ◌||◌, ◌≡◌, refl, [], ◌∷◌, arith, all, filter, ◌==◌,
}
use smtp_to_max_relay.Prelude.Text.{Text}
use smtp_to_max_relay.Prelude.Text.Laws.{all-trim}
use smtp_to_max_relay.Relay.Message.{strip_html_basic, replace_tags}

abbrev pub is_plain : ℕ → Bool
is_plain c = not (c == b'<' || c == b'>')

all-filter : (p : ℕ → Bool) (s : Text) → all p (filter p s) ≡ true
all-filter p [] = refl
all-filter p (c ∷ s) = ground (arith, all-filter p s)

-- No angle bracket is left of an HTML body, whatever it is.
pub all-strip_html_basic : (s : Text) → all is_plain (strip_html_basic s) ≡ true
unfolding strip_html_basic
all-strip_html_basic s = all-trim _ is_plain _ (all-filter is_plain (replace_tags zero s))
