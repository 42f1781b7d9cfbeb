-- ===== src/Text.antt =====
-- Python's `str.strip()` and the test `not text.strip()`, over the code points that it strips.
use Prim.Native.Char.{code}
use causal_ops.Prelude.{
  Bool-cases, inl, inr, ◌≡◌, refl, sym, ◌∙◌, false, ℕ, String, Bool, true, ◌&&◌, ◌||◌, leb,
  if◌then◌else◌,
}

abbrev one_of : ℕ → ℕ → Bool
one_of a b = leb a b && leb b a

-- `str.isspace()` of one code point
unfoldable pub is_space : ℕ → Bool
is_space c =
    (leb 9 c && leb c 13)
    || (leb 28 c && leb c 32)
    || one_of c 0x85
    || one_of c 0xa0
    || one_of c 0x1680
    || (leb 0x2000 c && leb c 0x200a)
    || (leb 0x2028 c && leb c 0x2029)
    || one_of c 0x202f
    || one_of c 0x205f
    || one_of c 0x3000

-- `not text.strip()`
unfoldable pub is_blank : String → Bool
is_blank String.[] = true
is_blank (String.◌∷◌ c s) = is_space (code c) && is_blank s

-- `text.lstrip()`
unfoldable pub lstrip : String → String
lstrip String.[] = String.[]
lstrip (String.◌∷◌ c s) = if is_space (code c) then lstrip s else String.◌∷◌ c s

-- `text.rstrip()`: a character is dropped if only white space follows it, itself included
unfoldable pub rstrip : String → String
rstrip String.[] = String.[]
rstrip (String.◌∷◌ c s) =
    let rest = rstrip s in if is_space (code c) && is_blank s then String.[] else String.◌∷◌ c rest

unfoldable pub strip : String → String
unfolding lstrip rstrip
strip s = rstrip (lstrip s)

-- `not text`
abbrev pub is_empty_text : String → Bool
is_empty_text String.[] = true
is_empty_text (String.◌∷◌ _ _) = false

-- Trailing white space says nothing about whether a text is blank.
is_blank-rstrip : (s : String) → is_blank (rstrip s) ≡ is_blank s
unfolding is_blank rstrip
is_blank-rstrip String.[] = refl
is_blank-rstrip (String.◌∷◌ c s) = elim (Bool-cases (is_space (code c) && is_blank s)) [
  | inl blank ↦ rw blank
  | inr solid ↦ rw solid (rw (is_blank-rstrip s) solid)
]

empty-rstrip : (s : String) → is_empty_text (rstrip s) ≡ is_blank s
unfolding is_blank rstrip
empty-rstrip String.[] = refl
empty-rstrip (String.◌∷◌ c s) = elim (Bool-cases (is_space (code c) && is_blank s)) [
  | inl blank ↦ rw blank
  | inr solid ↦ rw solid
]

-- A stripped text is blank only if it is empty.
pub is_blank-strip : (s : String) → is_blank (strip s) ≡ is_empty_text (strip s)
unfolding strip
is_blank-strip s = is_blank-rstrip (lstrip s) ∙ sym (empty-rstrip (lstrip s))
