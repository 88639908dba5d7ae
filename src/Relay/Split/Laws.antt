-- ===== src/Relay/Split/Laws.antt =====
-- The parts spell the text, fit the limit and begin at characters.
use mathlib.Core.List.{append-nil}
use smtp_to_max_relay.Prelude.{
  ℕ, zero, suc, ◌≤◌, ◌<◌, List, [], ◌∷◌, ◌++◌, some, ◌≡◌, refl, ap, ◌∙◌, inl, inr, arith, leb,
  length, take, drop, All, Bool-cases, Option-cases, length-take, length-drop, take-append-drop,
}
use smtp_to_max_relay.Relay.Split.{back_off, last_break, rune_cut, best_text_split, split_loop}

abbrev pub concat : List (List ℕ) → List ℕ
concat [] = []
concat (p ∷ ps) = p ++ concat ps

back_off-le : (n : ℕ) (text : List ℕ) → back_off n text ≤ n
unfolding back_off
back_off-le zero text = omega arith
back_off-le (suc n) text = ground (arith, back_off-le n text)

rune_cut_bounds :
    (max_bytes : ℕ) (text : List ℕ)
    → 0 < max_bytes
    → (0 < rune_cut max_bytes text) × (rune_cut max_bytes text ≤ max_bytes)
unfolding rune_cut
rune_cut_bounds max_bytes text h = ground (arith, back_off-le max_bytes text)

-- The index is in the text.
pub last_break-lt : (text : List ℕ) {i : ℕ} → last_break text ≡ some i → i < length text
unfolding last_break
last_break-lt [] h = cc
last_break-lt (b ∷ text) h = elim (Option-cases (last_break text)) [
  | inl e ↦ ground arith
  | inr (j, e) ↦ ground (arith, last_break-lt text {i = j} e)
]

pub best_text_split_bounds :
    (text : List ℕ) (max_bytes : ℕ)
    → 0 < max_bytes
    → max_bytes < length text
    → (0 < best_text_split text max_bytes) × (best_text_split text max_bytes ≤ max_bytes)
unfolding best_text_split
best_text_split_bounds text max_bytes h long =
    let cut = rune_cut max_bytes text in
    elim (Option-cases (last_break (take cut text))) [
      | inl e ↦ ground (arith, e, rune_cut_bounds max_bytes text h)
      | inr (i, e) ↦ ground (
        arith,
        e,
        rune_cut_bounds max_bytes text h,
        last_break-lt (take cut text) {i = i} e,
        length-take cut text,
      )
    ]

-- A part takes at least a byte, and at most the limit.
abbrev pub Fits : ℕ → List ℕ → Type 0
Fits max_bytes part = (0 < length part) × (length part ≤ max_bytes)

pub split_loop_lem :
    (fuel : ℕ) (text : List ℕ) (max_bytes : ℕ)
    → 0 < max_bytes
    → length text ≤ fuel
    → (concat (split_loop fuel text max_bytes) ≡ text)
      × All (Fits max_bytes) (split_loop fuel text max_bytes)
unfolding split_loop
split_loop_lem zero [] max_bytes h enough = (refl, tt)
split_loop_lem zero (b ∷ text) max_bytes h enough = absurd (omega arith)
split_loop_lem (suc fuel) [] max_bytes h enough = ground arith
split_loop_lem (suc fuel) (b ∷ rest) max_bytes h enough =
    elim (Bool-cases (leb (length (b ∷ rest)) max_bytes)) [
      | inl short ↦ rw short (append_nil, (ground arith, tt))
      | inr long ↦
          let text = b ∷ rest in
          let cut = best_text_split text max_bytes in
          let longer : max_bytes < length text = ground arith in
          let bounds = best_text_split_bounds text max_bytes h longer in
          let later =
            split_loop_lem fuel (drop cut text) max_bytes h
              (omega (arith, length-drop cut text, bounds)) in
          rw long (
            ap (◌++◌ (take cut text)) later.0 ∙ take-append-drop cut text,
            (omega (arith, length-take cut text, bounds, longer), later.1),
          )
    ]
  where
    append_nil : b ∷ (rest ++ []) ≡ b ∷ rest
    append_nil = append-nil (b ∷ rest)
