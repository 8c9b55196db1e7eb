-- ===== src/Print/Format.antt =====
-- src/kprintf.c: `kprintfv` on a format that is made of text and conversions.
use kfs.Base.{ℕ, ◌%◌, ◌^◌, ==-ne, ◌≡◌, ◌≢◌, refl, ap, List, [], ◌∷◌, ◌++◌, Option, some}
use kfs.Print.{Arg, string, word, print_decimal, print_hex, convert, kprintfv}

-- a piece of a format, with its argument
pub data Piece : Type 0 where
  text : List ℕ → Piece
  as_string : List ℕ → Piece
  as_char : ℕ → Piece
  as_decimal : ℕ → Piece
  as_hex : ℕ → Piece
  as_pointer : ℕ → Piece
  percent : Piece
  unknown : ℕ → Piece

-- the characters `%s`, `%c`, `%d`, `%x`, `%p`, `%%`, and `%` with another character
abbrev pub format : List Piece → List ℕ
format [] = []
format (text s ∷ ps) = s ++ format ps
format (as_string s ∷ ps) = 37 ∷ 115 ∷ format ps
format (as_char v ∷ ps) = 37 ∷ 99 ∷ format ps
format (as_decimal v ∷ ps) = 37 ∷ 100 ∷ format ps
format (as_hex v ∷ ps) = 37 ∷ 120 ∷ format ps
format (as_pointer v ∷ ps) = 37 ∷ 112 ∷ format ps
format (percent ∷ ps) = 37 ∷ 37 ∷ format ps
format (unknown c ∷ ps) = 37 ∷ c ∷ format ps

abbrev pub arguments : List Piece → List Arg
arguments [] = []
arguments (text s ∷ ps) = arguments ps
arguments (as_string s ∷ ps) = string s ∷ arguments ps
arguments (as_char v ∷ ps) = word v ∷ arguments ps
arguments (as_decimal v ∷ ps) = word v ∷ arguments ps
arguments (as_hex v ∷ ps) = word v ∷ arguments ps
arguments (as_pointer v ∷ ps) = word v ∷ arguments ps
arguments (percent ∷ ps) = arguments ps
arguments (unknown c ∷ ps) = arguments ps

-- the characters that are printed
abbrev pub shown : List Piece → List ℕ
shown [] = []
shown (text s ∷ ps) = s ++ shown ps
shown (as_string s ∷ ps) = s ++ shown ps
shown (as_char v ∷ ps) = (v % 2 ^ 8) ∷ shown ps
shown (as_decimal v ∷ ps) = print_decimal v ++ shown ps
shown (as_hex v ∷ ps) = print_hex v ++ shown ps
shown (as_pointer v ∷ ps) = print_hex v ++ shown ps
shown (percent ∷ ps) = 37 ∷ shown ps
shown (unknown c ∷ ps) = shown ps

abbrev pub NoPercent : List ℕ → Type 0
NoPercent [] = Unit {0}
NoPercent (c ∷ s) = (c ≢ 37) × NoPercent s

-- `c` is none of the characters of a conversion
abbrev pub IsUnknown : ℕ → Type 0
IsUnknown c = (c ≢ 115) × (c ≢ 99) × (c ≢ 100) × (c ≢ 120) × (c ≢ 112) × (c ≢ 37)

abbrev pub ArePieces : List Piece → Type 0
ArePieces [] = Unit {0}
ArePieces (text s ∷ ps) = NoPercent s × ArePieces ps
ArePieces (unknown c ∷ ps) = IsUnknown c × ArePieces ps
ArePieces (_ ∷ ps) = ArePieces ps

-- the result of `kprintfv` as an equation between options
abbrev Prints : List ℕ → List Arg → List ℕ → Type 0
Prints fmt args out = ◌≡◌ {A = Option (List ℕ)} (kprintfv fmt args) (some out)

kprintfv-char :
    (c : ℕ) (fmt out : List ℕ) (args : List Arg)
    → c ≢ 37
    → Prints fmt args out
    → Prints (c ∷ fmt) args (c ∷ out)
unfolding kprintfv
kprintfv-char c [] out args ne e =
    let same : ◌≡◌ {A = Option (List ℕ)} (some []) (some out) = e in
    let nothing : [] ≡ out = cc in
    rw (kprintfv, ==-ne c 37 ne) (ap (λ (s : List ℕ). some (c ∷ s)) nothing)
kprintfv-char c (d ∷ fmt) out args ne e = rw (kprintfv, ==-ne c 37 ne, e) refl

kprintfv-text :
    (s fmt out : List ℕ) (args : List Arg)
    → NoPercent s
    → Prints fmt args out
    → Prints (s ++ fmt) args (s ++ out)
kprintfv-text [] fmt out args h e = e
kprintfv-text (c ∷ s) fmt out args (ne, h) e =
    kprintfv-char c (s ++ fmt) (s ++ out) args ne (kprintfv-text s fmt out args h e)

kprintfv-convert :
    (d : ℕ) (fmt r out : List ℕ) (args more : List Arg)
    → convert d args ≡ some (r, more)
    → Prints fmt more out
    → Prints (37 ∷ d ∷ fmt) args (r ++ out)
unfolding kprintfv
kprintfv-convert d fmt r out args more c e = rw (kprintfv, c, e) refl

convert-IsUnknown : (c : ℕ) (args : List Arg) → IsUnknown c → convert c args ≡ some ([], args)
unfolding convert
convert-IsUnknown c args (s, ch, d, x, p, per) =
    rw (==-ne c 115 s, ==-ne c 99 ch, ==-ne c 100 d, ==-ne c 120 x, ==-ne c 112 p, ==-ne c 37 per)
      refl

-- A format of texts without `%` and of conversions, with the arguments that the conversions take:
-- `kprintfv` prints the texts as they are, strings and characters as they are, a decimal by
-- `print_decimal`, `%x` and `%p` both by `print_hex`, `%%` as one percent sign, and nothing for a
-- conversion that it does not know.
pub kprintfv-format :
    (ps : List Piece) → ArePieces ps → kprintfv (format ps) (arguments ps) ≡ some (shown ps)
unfolding kprintfv convert
kprintfv-format [] h = refl
kprintfv-format (text s ∷ ps) (h, rest) =
    kprintfv-text s (format ps) (shown ps) (arguments ps) h (kprintfv-format ps rest)
kprintfv-format (as_string s ∷ ps) h =
    kprintfv-convert 115 (format ps) s (shown ps) (arguments (as_string s ∷ ps)) (arguments ps) refl
      (kprintfv-format ps h)
kprintfv-format (as_char v ∷ ps) h =
    kprintfv-convert 99 (format ps) (v % 2 ^ 8 ∷ []) (shown ps) (arguments (as_char v ∷ ps))
      (arguments ps) refl (kprintfv-format ps h)
kprintfv-format (as_decimal v ∷ ps) h =
    kprintfv-convert 100 (format ps) (print_decimal v) (shown ps) (arguments (as_decimal v ∷ ps))
      (arguments ps) refl (kprintfv-format ps h)
kprintfv-format (as_hex v ∷ ps) h =
    kprintfv-convert 120 (format ps) (print_hex v) (shown ps) (arguments (as_hex v ∷ ps))
      (arguments ps) refl (kprintfv-format ps h)
kprintfv-format (as_pointer v ∷ ps) h =
    kprintfv-convert 112 (format ps) (print_hex v) (shown ps) (arguments (as_pointer v ∷ ps))
      (arguments ps) refl (kprintfv-format ps h)
kprintfv-format (percent ∷ ps) h =
    kprintfv-convert 37 (format ps) (37 ∷ []) (shown ps) (arguments (percent ∷ ps)) (arguments ps)
      refl (kprintfv-format ps h)
kprintfv-format (unknown c ∷ ps) (h, rest) =
    kprintfv-convert c (format ps) [] (shown ps) (arguments ps) (arguments ps)
      (convert-IsUnknown c (arguments ps) h) (kprintfv-format ps rest)
