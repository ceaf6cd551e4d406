-- ===== src/Common/Words.antt =====
-- `split_whitespace`, `split` at a character, and how they undo `join`.
use Prim.Native.Nat.{ℕ}
use mathlib.Core.Path.{◌≡◌, refl, sym, ap, subst, ◌∙◌}
use mathlib.Core.Bool.{true, false}
use mathlib.Core.List.{
  List, [], ◌∷◌, ◌++◌, append_assoc, append-nil, reverse, reverse-cons, reverse-reverse,
}
use native.Mathlib.Omega.{arith}
use stream_sub_translator.Common.Tests.{◌==◌, Bool-cases}
use mathlib.Core.Logic.{inl, inr}
use stream_sub_translator.Common.Lists.{All}
use stream_sub_translator.Common.Texts.{Text, is_whitespace, join, same, trim_start, trim}

push_word : Text → List Text → List Text
push_word [] ws = ws
push_word (c ∷ w) ws = (c ∷ w) ∷ ws

-- With the word that has been begun.
unfoldable pub words_from : Text → Text → List Text
unfolding is_whitespace push_word
words_from w [] = push_word w []
words_from w (c ∷ s) = elim (is_whitespace c) [
  | true ↦ push_word w (words_from [] s)
  | false ↦ words_from (w ++ c ∷ []) s
]

unfoldable pub split_whitespace : Text → List Text
unfolding words_from
split_whitespace s = words_from [] s

-- `split(sep)`, of a text that may be empty: there is always a first part.
unfoldable pub split_from : ℕ → Text → Text → List Text
split_from sep part [] = part ∷ []
split_from sep part (c ∷ s) = elim (c == sep) [
  | true ↦ part ∷ split_from sep [] s
  | false ↦ split_from sep (part ++ c ∷ []) s
]

unfoldable pub split : ℕ → Text → List Text
unfolding split_from
split sep s = split_from sep [] s

-- No whitespace in a text, and a word.
abbrev pub IsSolid : Text → Type 0
IsSolid s = All (λ c. is_whitespace c ≡ false) s

abbrev pub IsWord : Text → Type 0
IsWord [] = ⊥
IsWord (c ∷ s) = IsSolid (c ∷ s)

IsSolid-append : (s : Text) (c : ℕ) → IsSolid s → is_whitespace c ≡ false → IsSolid (s ++ c ∷ [])
IsSolid-append [] c h e = (e, tt)
IsSolid-append (d ∷ s) c (hd, hs) e = (hd, IsSolid-append s c hs e)

push_word-IsWord :
    (w : Text) (ws : List Text) → IsSolid w → All IsWord ws → All IsWord (push_word w ws)
unfolding push_word
push_word-IsWord [] ws h a = a
push_word-IsWord (c ∷ w) ws h a = (h, a)

words_from-IsWord : (w s : Text) → IsSolid w → All IsWord (words_from w s)
unfolding words_from
words_from-IsWord w [] h = push_word-IsWord w [] h tt
words_from-IsWord w (c ∷ s) h = elim (Bool-cases (is_whitespace c)) [
  | inl e ↦ rw (words_from, e) (push_word-IsWord w (words_from [] s) h (words_from-IsWord [] s tt))
  | inr e ↦ rw (words_from, e) (words_from-IsWord (w ++ c ∷ []) s (IsSolid-append w c h e))
]

words_from-append : (u w s : Text) → IsSolid w → words_from u (w ++ s) ≡ words_from (u ++ w) s
unfolding words_from
words_from-append u [] s h = ap (λ v. words_from v s) (sym (append-nil u))
words_from-append u (c ∷ w) s (hc, hw) =
    rw (words_from, hc)
      (words_from-append (u ++ c ∷ []) w s hw
        ∙ ap (λ v. words_from v s) (append_assoc u (c ∷ []) w))

push_word_word : (w : Text) (ws : List Text) → IsWord w → push_word w ws ≡ w ∷ ws
unfolding push_word
push_word_word [] ws h = absurd h
push_word_word (c ∷ w) ws h = refl

IsWord-IsSolid : (w : Text) → IsWord w → IsSolid w
IsWord-IsSolid [] h = tt
IsWord-IsSolid (c ∷ w) h = h

abbrev pub space : Text
space = 32 ∷ []

-- The words of words joined by spaces are these words.
pub split_whitespace-join : (ws : List Text) → All IsWord ws → split_whitespace (join space ws) ≡ ws
unfolding split_whitespace join words_from is_whitespace
split_whitespace-join [] h = refl
split_whitespace-join (w ∷ []) (hw, h) =
    ap (λ v. words_from [] v) (sym (append-nil w))
    ∙ words_from-append [] w [] (IsWord-IsSolid w hw)
    ∙ push_word_word w [] hw
split_whitespace-join (w ∷ v ∷ ws) (hw, h) =
    let rest = join space (v ∷ ws) in
    ap (λ u. words_from [] u) (append_assoc w space rest)
    ∙ words_from-append [] w (space ++ rest) (IsWord-IsSolid w hw)
    ∙ push_word_word w (words_from [] rest) hw
    ∙ ap (◌∷◌ w) (split_whitespace-join (v ∷ ws) h)

solid-not_space : (c : ℕ) → is_whitespace c ≡ false → (c == 32) ≡ false
unfolding is_whitespace
solid-not_space c h = ground arith

-- No separator in a text.
abbrev pub IsFree : ℕ → Text → Type 0
IsFree sep s = All (λ c. (c == sep) ≡ false) s

split_from-append :
    (sep : ℕ) (u w s : Text) → IsFree sep w → split_from sep u (w ++ s) ≡ split_from sep (u ++ w) s
unfolding split_from
split_from-append sep u [] s h = ap (λ v. split_from sep v s) (sym (append-nil u))
split_from-append sep u (c ∷ w) s (hc, hw) =
    rw (split_from, hc)
      (split_from-append sep (u ++ c ∷ []) w s hw
        ∙ ap (λ v. split_from sep v s) (append_assoc u (c ∷ []) w))

equal_self : (c : ℕ) → (c == c) ≡ true
equal_self c = ground arith

-- The first part of a text with a separator.
pub split-first :
    (sep : ℕ) (w s : Text) → IsFree sep w → split sep (w ++ sep ∷ s) ≡ w ∷ split_from sep [] s
unfolding split split_from
split-first sep w s h =
    split_from-append sep [] w (sep ∷ s) h ∙ rw (split_from, equal_self sep) refl

-- The parts of texts joined by a separator that is in none of them are these texts.
pub split-join :
    (sep : ℕ) (w : Text) (ws : List Text)
    → All (IsFree sep) (w ∷ ws)
    → split sep (join (sep ∷ []) (w ∷ ws)) ≡ w ∷ ws
unfolding split split_from join
split-join sep w [] (hw, h) =
    ap (λ v. split_from sep [] v) (sym (append-nil w)) ∙ split_from-append sep [] w [] hw
split-join sep w (v ∷ ws) (hw, h) =
    let rest = join (sep ∷ []) (v ∷ ws) in
    ap (λ u. split_from sep [] u) (append_assoc w (sep ∷ []) rest)
    ∙ split_from-append sep [] w (sep ∷ rest) hw
    ∙ rw (split_from, equal_self sep) (ap (◌∷◌ w) (split-join sep v ws h))

solid-IsFree : (w : Text) → IsSolid w → IsFree 32 w
solid-IsFree [] h = tt
solid-IsFree (c ∷ w) (hc, h) = (solid-not_space c hc, solid-IsFree w h)

pub words-IsFree : (ws : List Text) → All IsWord ws → All (IsFree 32) ws
words-IsFree [] h = tt
words-IsFree (w ∷ ws) (hw, h) = (solid-IsFree w (IsWord-IsSolid w hw), words-IsFree ws h)

pub split_whitespace-IsWord : (s : Text) → All IsWord (split_whitespace s)
unfolding split_whitespace
split_whitespace-IsWord s = words_from-IsWord [] s tt

pub same_self : (s : Text) → same s s ≡ true
unfolding same
same_self s = ground arith

reverse-IsSolid : (s : Text) → IsSolid s → IsSolid (reverse s)
reverse-IsSolid [] h = tt
reverse-IsSolid (c ∷ s) (hc, h) =
    subst IsSolid (sym (reverse-cons c s)) (IsSolid-append (reverse s) c (reverse-IsSolid s h) hc)

trim_start-solid : (s : Text) → IsSolid s → trim_start s ≡ s
unfolding trim_start
trim_start-solid [] h = refl
trim_start-solid (c ∷ s) (hc, h) = rw (trim_start, hc) refl

-- A text without whitespace is trimmed already.
pub trim-solid : (s : Text) → IsSolid s → trim s ≡ s
unfolding trim
trim-solid s h =
    ap (λ t. reverse (trim_start (reverse t))) (trim_start-solid s h)
    ∙ ap reverse (trim_start-solid (reverse s) (reverse-IsSolid s h))
    ∙ reverse-reverse s
