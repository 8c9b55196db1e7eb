-- ===== src/Shell/Args.antt =====
-- `shell_parse_args` on a line that is made of words.
use kfs.Base.{
  ◌∙◌, append-nil, arith, ℕ, zero, suc, ◌≤◌, ◌≡◌, ◌≢◌, refl, ap, List, [], ◌∷◌, ◌++◌, false, length,
}
use kfs.Shell.{is_blank, skip_blanks, take_word, args_from, shell_parse_args}

-- no character of `w` is a space or a tab
abbrev pub NoBlank : List ℕ → Type 0
NoBlank [] = Unit {0}
NoBlank (c ∷ w) = (is_blank c ≡ false) × NoBlank w

-- words: not empty, and without blanks
abbrev pub AreWords : List (List ℕ) → Type 0
AreWords [] = Unit {0}
AreWords (w ∷ ws) = (w ≢ []) × NoBlank w × AreWords ws

-- `k` spaces in front of a text
abbrev pub spaces : ℕ → List ℕ → List ℕ
spaces zero s = s
spaces (suc k) s = 32 ∷ spaces k s

-- A line: `gap` blanks in front of the first word, at least one between two words, where `gaps` has
-- how many more there are, and `behind` blanks behind the last word.
abbrev pub spaced : ℕ → ℕ → List ℕ → List (List ℕ) → List ℕ
spaced gap behind gaps [] = spaces gap []
spaced gap behind gaps (w ∷ []) = spaces gap (w ++ spaces behind [])
spaced gap behind [] (w ∷ v ∷ ws) = spaces gap (w ++ (32 ∷ spaced 0 behind [] (v ∷ ws)))
spaced gap behind (g ∷ gaps) (w ∷ v ∷ ws) = spaces gap (w ++ (32 ∷ spaced g behind gaps (v ∷ ws)))

skip_blanks-spaces :
    (k c : ℕ) (s : List ℕ) → is_blank c ≡ false → skip_blanks (spaces k (c ∷ s)) ≡ c ∷ s
unfolding skip_blanks
skip_blanks-spaces zero c s h = rw (skip_blanks, h) refl
skip_blanks-spaces (suc k) c s h = skip_blanks-spaces k c s h

take_word-word : (w s : List ℕ) → NoBlank w → take_word (w ++ (32 ∷ s)) ≡ (w, s)
unfolding take_word
take_word-word [] s h = refl
take_word-word (c ∷ w) s (h, more) =
    rw (take_word, h) (ap (λ (r : List ℕ × List ℕ). (c ∷ r.0, r.1)) (take_word-word w s more))

take_word-end : (w : List ℕ) → NoBlank w → take_word w ≡ (w, [])
unfolding take_word
take_word-end [] h = refl
take_word-end (c ∷ w) (h, more) =
    rw (take_word, h) (ap (λ (r : List ℕ × List ℕ). (c ∷ r.0, r.1)) (take_word-end w more))

skip_blanks-only : (k : ℕ) → skip_blanks (spaces k []) ≡ []
unfolding skip_blanks
skip_blanks-only zero = refl
skip_blanks-only (suc k) = skip_blanks-only k

args_from-only : (left k : ℕ) → args_from left (spaces k []) ≡ []
unfolding args_from
args_from-only zero k = refl
args_from-only (suc left) k = rw (args_from, skip_blanks-only k) refl

-- one round, on a word that a space ends
args_from_next :
    (left gap : ℕ) (w s : List ℕ)
    → w ≢ []
    → NoBlank w
    → args_from (suc left) (spaces gap (w ++ (32 ∷ s))) ≡ w ∷ args_from left s
unfolding args_from
args_from_next left gap [] s ne h = absurd (ne refl)
args_from_next left gap (c ∷ w) s ne (h, more) =
    rw (args_from, skip_blanks-spaces gap c (w ++ (32 ∷ s)) h, take_word-word (c ∷ w) s (h, more))
      refl

-- one round, on the last word
args_from_last :
    (left gap behind : ℕ) (w : List ℕ)
    → w ≢ []
    → NoBlank w
    → args_from (suc left) (spaces gap (w ++ spaces behind [])) ≡ w ∷ []
unfolding args_from
args_from_last left gap behind [] ne h = absurd (ne refl)
args_from_last left gap zero (c ∷ w) ne (h, more) =
    rw (append-nil, args_from, skip_blanks-spaces gap c w h, take_word-end (c ∷ w) (h, more))
      (ap (λ (r : List (List ℕ)). (c ∷ w) ∷ r) (args_from-only left 0))
args_from_last left gap (suc behind) (c ∷ w) ne h =
    args_from_next left gap (c ∷ w) (spaces behind []) ne h
    ∙ ap (λ (r : List (List ℕ)). (c ∷ w) ∷ r) (args_from-only left behind)

args_from-spaced :
    (left gap behind : ℕ) (gaps : List ℕ) (ws : List (List ℕ))
    → AreWords ws
    → length ws ≤ left
    → args_from left (spaced gap behind gaps ws) ≡ ws
args_from-spaced left gap behind gaps [] h k = args_from-only left gap
args_from-spaced zero gap behind gaps (w ∷ ws) h k = absurd (omega arith)
args_from-spaced (suc left) gap behind gaps (w ∷ []) (ne, h, rest) k =
    args_from_last left gap behind w ne h
args_from-spaced (suc left) gap behind [] (w ∷ v ∷ ws) (ne, h, rest) k =
    args_from_next left gap w _ ne h
    ∙ ap (λ (r : List (List ℕ)). w ∷ r)
        (args_from-spaced left 0 behind [] (v ∷ ws) rest (omega arith))
args_from-spaced (suc left) gap behind (g ∷ gaps) (w ∷ v ∷ ws) (ne, h, rest) k =
    args_from_next left gap w _ ne h
    ∙ ap (λ (r : List (List ℕ)). w ∷ r)
        (args_from-spaced left g behind gaps (v ∷ ws) rest (omega arith))

-- A line of at most 15 words, with any number of spaces in front of the first, at least one between two
-- words, a number of its own for each two, and any number behind the last, also none, is taken apart
-- into those words.
pub shell_parse_args-spaced :
    (gap behind : ℕ) (gaps : List ℕ) (ws : List (List ℕ))
    → AreWords ws
    → length ws ≤ 15
    → shell_parse_args (spaced gap behind gaps ws) ≡ ws
unfolding shell_parse_args
shell_parse_args-spaced gap behind gaps ws h k = args_from-spaced 15 gap behind gaps ws h k
