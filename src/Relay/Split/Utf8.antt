-- ===== src/Relay/Split/Utf8.antt =====
-- internal/relay/service.go: texts in UTF-8, by where their characters start.
use smtp_to_max_relay.Prelude.{
  ℕ, zero, suc, ◌+◌, ◌-◌, ◌≤◌, Bool, true, false, ◌&&◌, List, [], ◌∷◌, ◌≡◌, refl, arith,
  if◌then◌else◌, ltb, within, drop,
}
use smtp_to_max_relay.Relay.Split.{is_rune_start, head_starts, starts_at}

-- The continuation bytes stand at most three in a row, and none behind an ASCII byte or, where
-- `n` is 0, in front. Every valid UTF-8 text passes with 0.
unfoldable pub is_utf8_like : ℕ → List ℕ → Bool
is_utf8_like n [] = true
is_utf8_like n (b ∷ text) =
    let within_rune = is_utf8_like (n - 1) text in
    let ascii = is_utf8_like 0 text in
    let lead = is_utf8_like 3 text in
    if within 0x80 0xbf b then ltb 0 n && within_rune else if ltb b 0x80 then ascii else lead

pub is_utf8_like_mono :
    (m n : ℕ) (text : List ℕ) → m ≤ n → is_utf8_like m text ≡ true → is_utf8_like n text ≡ true
unfolding is_utf8_like
is_utf8_like_mono m n [] h e = refl
is_utf8_like_mono m n (b ∷ text) h e = ground (arith, is_utf8_like_mono (m - 1) (n - 1) text)

pub is_utf8_like-tail :
    (n b : ℕ) (text : List ℕ)
    → n ≤ 3
    → is_utf8_like n (b ∷ text) ≡ true
    → is_utf8_like 3 text ≡ true
unfolding is_utf8_like
is_utf8_like-tail n b text h e =
    ground (arith, is_utf8_like_mono (n - 1) 3 text, is_utf8_like_mono 0 3 text)

pub is_utf8_like-drop :
    (k : ℕ) (text : List ℕ) → is_utf8_like 3 text ≡ true → is_utf8_like 3 (drop k text) ≡ true
is_utf8_like-drop zero text e = e
is_utf8_like-drop (suc k) [] e = e
is_utf8_like-drop (suc k) (b ∷ text) e =
    is_utf8_like-drop k text (is_utf8_like-tail 3 b text (omega arith) e)

-- Behind a character start nothing is left over.
pub is_utf8_like-start :
    (n : ℕ) (text : List ℕ)
    → is_utf8_like n text ≡ true
    → head_starts text ≡ true
    → is_utf8_like 0 text ≡ true
unfolding is_utf8_like head_starts is_rune_start
is_utf8_like-start n [] e h = refl
is_utf8_like-start n (b ∷ text) e h = ground arith

pub starts_at_end : (i : ℕ) → starts_at i [] ≡ true
unfolding starts_at
starts_at_end zero = refl
starts_at_end (suc i) = refl

pub starts_at-drop : (i k : ℕ) (text : List ℕ) → starts_at i (drop k text) ≡ starts_at (k + i) text
unfolding starts_at
starts_at-drop i zero text = let e : 0 + i ≡ i = omega arith in rw e
starts_at-drop i (suc k) [] = rw (starts_at_end i, starts_at_end (suc k + i))
starts_at-drop i (suc k) (b ∷ text) =
    let e : suc k + i ≡ suc (k + i) = omega arith in
    rw e (unfold starts_at in starts_at-drop i k text)

pub inside_tail :
    (n b : ℕ) (text : List ℕ)
    → is_utf8_like (suc n) (b ∷ text) ≡ true
    → is_rune_start b ≡ false
    → is_utf8_like n text ≡ true
unfolding is_utf8_like is_rune_start
inside_tail n b text e h = let same : suc n - 1 ≡ n = omega arith in rw same at inside
  where
    inside : is_utf8_like (suc n - 1) text ≡ true
    inside = ground arith

-- Among n + 1 places in a row one is a character start.
pub some_start :
    (n : ℕ) (text : List ℕ)
    → is_utf8_like n text ≡ true
    → ((i : ℕ) → i ≤ n → starts_at i text ≡ false)
    → ⊥
unfolding starts_at
some_start n [] e h = cc (h 0 (omega arith), starts_at_end 0)
some_start zero (b ∷ text) e h =
    unfold is_utf8_like is_rune_start in ground (arith, h 0 (omega arith))
some_start (suc n) (b ∷ text) e h =
    some_start n text (inside_tail n b text e (h 0 (omega arith))) (λ i k. h (suc i) (omega arith))
