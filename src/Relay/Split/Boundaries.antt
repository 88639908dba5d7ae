-- ===== src/Relay/Split/Boundaries.antt =====
-- No part begins inside a character.
use mathlib.Core.List.{append-nil}
use smtp_to_max_relay.Prelude.{
  ℕ, zero, suc, ◌+◌, ◌-◌, ◌≤◌, ◌<◌, true, false, ◌||◌, List, [], ◌∷◌, some, ◌≡◌, refl, ◌∙◌, ◌⊎◌,
  inl, inr, arith, if◌then◌else◌, leb, ◌==◌, length, take, drop, is_empty, All, Bool-cases,
  Option-cases,
}
use smtp_to_max_relay.Relay.Split.{
  is_rune_start, head_starts, starts_at, back_off, is_break, last_break, rune_cut, best_text_split,
  split_loop, split_text_message,
}
use smtp_to_max_relay.Relay.Split.Laws.{concat, Fits, split_loop_lem}
use smtp_to_max_relay.Relay.Split.Utf8.{
  is_utf8_like, is_utf8_like_mono, is_utf8_like-tail, is_utf8_like-drop, is_utf8_like-start,
  starts_at-drop, some_start,
}

back_off_zero :
    (n : ℕ) (text : List ℕ) (i : ℕ) → back_off n text ≡ 0 → 0 < i → i ≤ n → starts_at i text ≡ false
unfolding back_off
back_off_zero zero text i e pos h = absurd (omega arith)
back_off_zero (suc n) text i e pos h = elim (Bool-cases (starts_at (suc n) text)) [
  | inl found ↦ absurd (ground arith)
  | inr other ↦ elim (le-cases i n h) [
    | inl same ↦ rw same other
    | inr below ↦ back_off_zero n text i (ground arith) pos below
  ]
]
  where
    le-cases : (i n : ℕ) → i ≤ suc n → (i ≡ suc n) ⊎ (i ≤ n)
    le-cases i n h = ground arith

back_off_starts :
    (n : ℕ) (text : List ℕ) → (back_off n text ≡ 0) ⊎ (starts_at (back_off n text) text ≡ true)
unfolding back_off
back_off_starts zero text = inl refl
back_off_starts (suc n) text = elim (Bool-cases (starts_at (suc n) text)) [
  | inl found ↦ inr (rw (found, back_off) found)
  | inr other ↦ rw other (back_off_starts n text)
]

back_off_finds :
    (max_bytes : ℕ) (text : List ℕ)
    → 4 ≤ max_bytes
    → is_utf8_like 0 text ≡ true
    → back_off max_bytes text ≡ 0
    → ⊥
back_off_finds max_bytes text h e none_found =
    some_start 3 (drop (max_bytes - 3) text)
      (is_utf8_like-drop (max_bytes - 3) text (is_utf8_like_mono 0 3 text (omega arith) e))
      (λ i k.
        starts_at-drop i (max_bytes - 3) text
        ∙ back_off_zero max_bytes text (max_bytes - 3 + i) none_found (omega arith) (omega arith))

-- With four places to choose from, the cut is a character start.
rune_cut_starts :
    (max_bytes : ℕ) (text : List ℕ)
    → 4 ≤ max_bytes
    → is_utf8_like 0 text ≡ true
    → starts_at (rune_cut max_bytes text) text ≡ true
unfolding rune_cut
rune_cut_starts max_bytes text h e =
    ground (arith, back_off_starts max_bytes text, back_off_finds max_bytes text h e)

ascii_tail :
    (n b : ℕ) (text : List ℕ)
    → is_break b ≡ true
    → is_utf8_like n (b ∷ text) ≡ true
    → head_starts text ≡ true
unfolding is_break is_utf8_like head_starts is_rune_start
ascii_tail n b [] h e = refl
ascii_tail n b (c ∷ text) h e = ground arith

-- Behind a break, which is an ASCII byte, a character starts.
break_starts :
    (cut : ℕ) (text : List ℕ) {i : ℕ}
    → last_break (take cut text) ≡ some i
    → is_utf8_like 3 text ≡ true
    → starts_at (i + 1) text ≡ true
unfolding last_break
break_starts zero text h e = cc
break_starts (suc cut) [] h e = cc
break_starts (suc cut) (b ∷ text) {i} h e = elim (Option-cases (last_break (take cut text))) [
  | inl last ↦
      let first : i + 1 ≡ 1 = ground arith in
      rw first (unfold starts_at in ascii_tail 3 b text (ground arith) e)
  | inr (j, last) ↦
      let later : i + 1 ≡ suc (j + 1) = ground arith in
      rw later (
        shift b (j + 1) text
        ∙ break_starts cut text last (is_utf8_like-tail 3 b text (omega arith) e))
]
  where
    shift : (b k : ℕ) (text : List ℕ) → starts_at (suc k) (b ∷ text) ≡ starts_at k text
    shift b k text = unfold starts_at in refl

best_text_split_starts :
    (text : List ℕ) (max_bytes : ℕ)
    → 4 ≤ max_bytes
    → max_bytes < length text
    → is_utf8_like 0 text ≡ true
    → starts_at (best_text_split text max_bytes) text ≡ true
unfolding best_text_split
best_text_split_starts text max_bytes h long e =
    let cut = rune_cut max_bytes text in
    let any_run = is_utf8_like_mono 0 3 text (omega arith) e in
    elim (Option-cases (last_break (take cut text))) [
      | inl none_there ↦ ground (arith, none_there, rune_cut_starts max_bytes text h e)
      | inr (i, last) ↦ ground (
        arith,
        last,
        rune_cut_starts max_bytes text h e,
        break_starts cut text {i = i} last any_run,
      )
    ]

starts_of_utf8_like : (text : List ℕ) → is_utf8_like 0 text ≡ true → head_starts text ≡ true
unfolding is_utf8_like head_starts is_rune_start
starts_of_utf8_like [] e = refl
starts_of_utf8_like (b ∷ text) e = ground arith

head_starts-take :
    (n : ℕ) (text : List ℕ) → head_starts text ≡ true → head_starts (take n text) ≡ true
unfolding head_starts
head_starts-take zero text e = refl
head_starts-take (suc n) [] e = refl
head_starts-take (suc n) (b ∷ text) e = e

last_part_starts :
    (text : List ℕ)
    → head_starts text ≡ true
    → All (λ part. head_starts part ≡ true) (if is_empty text then [] else text ∷ [])
last_part_starts [] e = tt
last_part_starts (b ∷ text) e = (e, tt)

split_loop_starts :
    (fuel : ℕ) (text : List ℕ) (max_bytes : ℕ)
    → 4 ≤ max_bytes
    → is_utf8_like 0 text ≡ true
    → All (λ part. head_starts part ≡ true) (split_loop fuel text max_bytes)
unfolding split_loop
split_loop_starts zero text max_bytes h e = tt
split_loop_starts (suc fuel) text max_bytes h e = elim (Bool-cases (leb (length text) max_bytes)) [
  | inl short ↦ rw short (last_part_starts text (starts_of_utf8_like text e))
  | inr long ↦
      let cut = best_text_split text max_bytes in
      let later_starts = best_text_split_starts text max_bytes h (ground arith) e in
      rw long (
        head_starts-take cut text (starts_of_utf8_like text e),
        split_loop_starts fuel (drop cut text) max_bytes h (
            is_utf8_like-start 3 (drop cut text)
              (is_utf8_like-drop cut text (is_utf8_like_mono 0 3 text (omega arith) e))
              (unfold starts_at in later_starts)),
      )
]

-- Splitting a text by a limit that is not 0 gives parts that spell the text, none longer than the
-- limit; the parts of a text that is not empty are not empty. If the limit is 4 or more and the
-- text is UTF-8, no part begins inside a character.
pub split_text_message_lem :
    (text : List ℕ) (max_bytes : ℕ)
    → 0 < max_bytes
    → let parts = split_text_message text max_bytes in
      (concat parts ≡ text)
      × All (λ part. length part ≤ max_bytes) parts
      × (0 < length text → All (Fits max_bytes) parts)
      × (4 ≤ max_bytes → is_utf8_like 0 text ≡ true → All (λ part. head_starts part ≡ true) parts)
unfolding split_text_message
split_text_message_lem text max_bytes h = elim (Bool-cases (leb (length text) max_bytes)) [
  | inl short ↦
      let no_split : (max_bytes == 0 || leb (length text) max_bytes) ≡ true = ground arith in
      rw no_split (
        append-nil text,
        (ground arith, tt),
        (λ pos. ((pos, ground arith), tt)),
        (λ four e. (starts_of_utf8_like text e, tt)),
      )
  | inr long ↦
      let splits : (max_bytes == 0 || leb (length text) max_bytes) ≡ false = ground arith in
      let loop = split_loop_lem (length text) text max_bytes h (omega arith) in
      rw splits (
        loop.0,
        short_parts (split_loop (length text) text max_bytes) loop.1,
        (λ pos. loop.1),
        (λ four e. split_loop_starts (length text) text max_bytes four e),
      )
]
  where
    short_parts :
        (parts : List (List ℕ))
        → All (Fits max_bytes) parts
        → All (λ part. length part ≤ max_bytes) parts
    short_parts [] k = tt
    short_parts (part ∷ parts) k = (k.0.1, short_parts parts k.1)
