-- ===== src/Relay/Split.antt =====
-- internal/relay/service.go: splitTextMessage, on the bytes of the text. A limit that is not positive
-- is 0. The loop has the length of the text for fuel, and every part takes at least a byte.
pub mod Laws
pub mod Utf8
pub mod Boundaries
use smtp_to_max_relay.Prelude.{
  ℕ, zero, suc, ◌+◌, ◌/◌, Bool, true, false, not, ◌||◌, List, [], ◌∷◌, Option, none, some,
  if◌then◌else◌, leb, within, ◌==◌, length, take, drop, is_empty,
}

-- utf8.RuneStart: not a continuation byte
unfoldable pub is_rune_start : ℕ → Bool
is_rune_start b = not (within 0x80 0xbf b)

pub head_starts : List ℕ → Bool
head_starts [] = true
head_starts (b ∷ text) = is_rune_start b

-- Is the byte at `cut` a rune start, or `cut` behind the text?
unfoldable pub starts_at : ℕ → List ℕ → Bool
unfolding head_starts
starts_at cut text = head_starts (drop cut text)

-- for cut > 0 && cut < len(text) && !utf8.RuneStart(text[cut]) { cut-- }
unfoldable pub back_off : ℕ → List ℕ → ℕ
back_off zero text = 0
back_off (suc n) text = let rest = back_off n text in if starts_at (suc n) text then suc n else rest

-- One of "\n\r\t "
unfoldable pub is_break : ℕ → Bool
is_break b = b == b'\n' || b == b'\r' || b == b'\t' || b == b' '

one_more : Option ℕ → Option ℕ
one_more none = none
one_more (some i) = some (i + 1)

here_or : Bool → Option ℕ → Option ℕ
here_or found none = if found then some 0 else none
here_or found (some i) = some i

-- strings.LastIndexAny
unfoldable pub last_break : List ℕ → Option ℕ
unfolding one_more here_or
last_break [] = none
last_break (b ∷ text) = here_or (is_break b) (one_more (last_break text))

-- Behind the last break, if it is not in the first half.
break_or : ℕ → ℕ → Option ℕ → ℕ
break_or max_bytes cut none = cut
break_or max_bytes cut (some index) = if leb (max_bytes / 2) index then index + 1 else cut

unfoldable pub rune_cut : ℕ → List ℕ → ℕ
rune_cut max_bytes text = let cut = back_off max_bytes text in if cut == 0 then max_bytes else cut

unfoldable pub best_text_split : List ℕ → ℕ → ℕ
unfolding break_or
best_text_split text max_bytes =
    if leb (length text) max_bytes
    then length text
    else let cut = rune_cut max_bytes text in break_or max_bytes cut (last_break (take cut text))

unfoldable pub split_loop : ℕ → List ℕ → ℕ → List (List ℕ)
split_loop zero text max_bytes = []
split_loop (suc fuel) text max_bytes =
    let cut = best_text_split text max_bytes in
    let rest = take cut text ∷ split_loop fuel (drop cut text) max_bytes in
    if leb (length text) max_bytes then (if is_empty text then [] else text ∷ []) else rest

unfoldable pub split_text_message : List ℕ → ℕ → List (List ℕ)
split_text_message text max_bytes =
    if max_bytes == 0 || leb (length text) max_bytes
    then text ∷ []
    else split_loop (length text) text max_bytes
