-- ===== src/Base/Texts.antt =====
-- Python's `str.strip`, `str.split` and `str.rsplit` on texts as code points.
use bitchat_node_daemon.Base.Tests.{leb, ◌==◌, if◌then◌else◌}
use bitchat_node_daemon.Base.Lists.{All, length}
use bitchat_node_daemon.Base.Bytes.{Text}
use Prim.Native.String.{String}
use Prim.Native.Char.{code}
use Prim.Native.Nat.{ℕ, zero, suc}
use mathlib.Core.Path.{◌≡◌, refl}
use mathlib.Core.Bool.{Bool, true, false, ◌&&◌, ◌||◌}
use mathlib.Core.Option.{Option, none, some}
use mathlib.Core.List.{List, [], ◌∷◌, ◌++◌}
use native.Mathlib.Omega.{arith}

-- A text, or an ASCII byte string, that the source writes out.
abbrev pub codes : String → Text
codes String.[] = []
codes (String.◌∷◌ c cs) = code c ∷ codes cs

-- `str.isspace` of one character
unfoldable pub is_white : ℕ → Bool
is_white x =
    leb 9 x && leb x 13
    || leb 28 x && leb x 32
    || x == 133
    || x == 160
    || x == 5760
    || leb 8192 x && leb x 8202
    || x == 8232
    || x == 8233
    || x == 8239
    || x == 8287
    || x == 12288

strip_left : Text → Text
strip_left [] = []
strip_left (x ∷ xs) = if is_white x then strip_left xs else x ∷ xs

-- White space at the end is dropped where nothing else follows it.
keep_unless_empty : ℕ → Text → Text
keep_unless_empty x [] = if is_white x then [] else x ∷ []
keep_unless_empty x (y ∷ ys) = x ∷ y ∷ ys

strip_right : Text → Text
strip_right [] = []
strip_right (x ∷ xs) = keep_unless_empty x (strip_right xs)

-- `str.strip()`
unfoldable pub strip : Text → Text
unfolding strip_left strip_right keep_unless_empty is_white
strip xs = strip_right (strip_left xs)

-- The text up to the first white space, and what follows it.
cut_word : Text → Text × Text
cut_word [] = ([], [])
cut_word (x ∷ xs) =
    let (word, rest) = cut_word xs in if is_white x then ([], x ∷ xs) else (x ∷ word, rest)

unless_empty : Text → List Text
unless_empty [] = []
unless_empty (x ∷ xs) = (x ∷ xs) ∷ []

next_words : (Text → List Text) → Text → List Text
next_words more [] = []
next_words more (x ∷ xs) = let (word, rest) = cut_word (x ∷ xs) in word ∷ more rest

-- `text.split(maxsplit=n)`: white space at the end stays where all cuts were made.
unfoldable pub split_max : ℕ → Text → List Text
unfolding strip_left cut_word unless_empty next_words
split_max zero t = unless_empty (strip_left t)
split_max (suc n) t = next_words (split_max n) (strip_left t)

-- `text.split()`: there are not more words than characters.
unfoldable pub words : Text → List Text
unfolding split_max
words t = split_max (length t) t

-- `text.lstrip('@')`
unfoldable pub lstrip_at : Text → Text
lstrip_at [] = []
lstrip_at (x ∷ xs) = if x == b'@' then lstrip_at xs else x ∷ xs

-- `text.startswith(prefix)`
unfoldable pub starts_with : Text → Text → Bool
starts_with [] t = true
starts_with (x ∷ prefix) [] = false
starts_with (x ∷ prefix) (y ∷ t) = x == y && starts_with prefix t

-- `text.split(sep)` at one character: the parts, of which there is at least one.
add_to_first : ℕ → List Text → List Text
add_to_first x [] = (x ∷ []) ∷ []
add_to_first x (part ∷ parts) = (x ∷ part) ∷ parts

unfoldable pub split : ℕ → Text → List Text
unfolding add_to_first
split sep [] = [] ∷ []
split sep (x ∷ xs) = let rest = split sep xs in if x == sep then [] ∷ rest else add_to_first x rest

-- `text.rsplit(sep, 1)`, where it gives two parts.
cut_after : ℕ → ℕ → Text → Option (Text × Text) → Option (Text × Text)
cut_after sep x xs (some (before, after)) = some (x ∷ before, after)
cut_after sep x xs none = if x == sep then some ([], xs) else none

unfoldable pub rsplit_once : ℕ → Text → Option (Text × Text)
unfolding cut_after
rsplit_once sep [] = none
rsplit_once sep (x ∷ xs) = cut_after sep x xs (rsplit_once sep xs)

-- A text without a character.
abbrev pub Lacks : ℕ → Text → Type 0
Lacks c t = All (λ x. (x == c) ≡ false) t

pub split-append :
    (sep : ℕ) (a rest : Text) → Lacks sep a → split sep (a ++ sep ∷ rest) ≡ a ∷ split sep rest
unfolding split
split-append sep [] rest h = ground arith
split-append sep (x ∷ a) rest (h, hs) = rw (split-append sep a rest hs, h) refl

pub split-Lacks : (sep : ℕ) (a : Text) → Lacks sep a → split sep a ≡ a ∷ []
unfolding split
split-Lacks sep [] h = refl
split-Lacks sep (x ∷ a) (h, hs) = rw (split-Lacks sep a hs, h) refl

rsplit_once-Lacks : (sep : ℕ) (a : Text) → Lacks sep a → rsplit_once sep a ≡ none
unfolding rsplit_once
rsplit_once-Lacks sep [] h = refl
rsplit_once-Lacks sep (x ∷ a) (h, hs) = rw (rsplit_once-Lacks sep a hs, h) refl

-- The last separator is the one that cuts.
pub rsplit_once-append :
    (sep : ℕ) (a b : Text) → Lacks sep b → rsplit_once sep (a ++ sep ∷ b) ≡ some (a, b)
unfolding rsplit_once
rsplit_once-append sep [] b h = rw (rsplit_once-Lacks sep b h) (ground arith)
rsplit_once-append sep (x ∷ a) b h = rw (rsplit_once-append sep a b h) refl

-- Whether a character is not white space.
abbrev pub IsInk : ℕ → Type 0
IsInk x = is_white x ≡ false

strip_left-Ink : (t : Text) → All IsInk t → strip_left t ≡ t
unfolding strip_left
strip_left-Ink [] h = refl
strip_left-Ink (x ∷ t) (h, hs) = rw h refl

strip_right-Ink : (t : Text) → All IsInk t → strip_right t ≡ t
unfolding strip_right keep_unless_empty
strip_right-Ink [] h = refl
strip_right-Ink (x ∷ []) (h, hs) = rw h refl
strip_right-Ink (x ∷ y ∷ t) (h, hs) = rw (strip_right-Ink (y ∷ t) hs) refl

-- A text without white space is its own strip.
pub strip-Ink : (t : Text) → All IsInk t → strip t ≡ t
unfolding strip
strip-Ink t h = rw (strip_left-Ink t h) (strip_right-Ink t h)
