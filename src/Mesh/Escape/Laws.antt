-- ===== src/Mesh/Escape/Laws.antt =====
-- What `esc` guarantees in the content of an element, and what it does not guarantee inside a
-- quoted attribute.
use meshtastic_proxy.Base.{
  ℕ, zero, suc, ◌<◌, [], ◌∷◌, ◌++◌, Text, text, ◌==◌, if◌then◌else◌, ◌≡◌, refl, ap, ◌∙◌, ◌≢◌, Bool,
  false, arith, length, All, All-append, is_prefix, count, text_truthy, ◌↔◌, Bool-cases, inl, inr,
  ==_iff, length-append,
}
use mathlib.Core.List.{append_assoc}
use meshtastic_proxy.Mesh.Escape.{escape_char, inner_html, esc}

-- The reading of character references, for the four that a text node is serialised with: the
-- character at `&` and how many further code units belong to the reference.
entity : ℕ → Text → ℕ
entity c s =
    if c == b'&'
    then (if is_prefix (text "amp;") s
        then b'&'
        else if is_prefix (text "lt;") s
        then b'<'
        else if is_prefix (text "gt;") s
        then b'>'
        else if is_prefix (text "nbsp;") s
        then 0xa0
        else c)
    else c

entity_rest : ℕ → Text → ℕ
entity_rest c s =
    if c == b'&'
    then (if is_prefix (text "amp;") s
        then 4
        else if is_prefix (text "lt;") s
        then 3
        else if is_prefix (text "gt;") s
        then 3
        else if is_prefix (text "nbsp;") s
        then 5
        else 0)
    else 0

decode_from : ℕ → Text → Text
unfolding entity entity_rest
decode_from skip [] = []
decode_from (suc skip) (c ∷ s) = decode_from skip s
decode_from zero (c ∷ s) = entity c s ∷ decode_from (entity_rest c s) s

pub decode : Text → Text
unfolding decode_from
decode = decode_from 0

esc-inner_html : (s : Text) → esc s ≡ inner_html s
unfolding esc
esc-inner_html [] = refl
esc-inner_html (c ∷ s) = refl

decode-escape_char : (c : ℕ) (s : Text) → decode (escape_char c ++ s) ≡ c ∷ decode s
unfolding decode escape_char
decode-escape_char c s = ground arith

decode-inner_html : (s : Text) → decode (inner_html s) ≡ s
unfolding inner_html
decode-inner_html [] = unfold decode in refl
decode-inner_html (c ∷ s) = decode-escape_char c (inner_html s) ∙ ap (c ∷◌) (decode-inner_html s)

-- Reading the character references of an escaped text gives the text back.
pub decode-esc : (s : Text) → decode (esc s) ≡ s
decode-esc s = ap decode (esc-inner_html s) ∙ decode-inner_html s

abbrev pub IsPlain : ℕ → Type 0
IsPlain c = (c ≢ b'<') × (c ≢ b'>')

escape_char-IsPlain : (c : ℕ) → All IsPlain (escape_char c)
unfolding escape_char
escape_char-IsPlain c = ground arith

inner_html-IsPlain : (s : Text) → All IsPlain (inner_html s)
unfolding inner_html
inner_html-IsPlain [] = tt
inner_html-IsPlain (c ∷ s) =
    All-append IsPlain (escape_char c) (inner_html s) (escape_char-IsPlain c) (inner_html-IsPlain s)

-- An escaped text holds neither `<` nor `>`, so as the content of an element it opens no tag.
pub esc-IsPlain : (s : Text) → All IsPlain (esc s)
esc-IsPlain s = rw esc-inner_html (inner_html-IsPlain s)

-- A value between double quotes ends at the first quote.
pub attribute_value : Text → Text
attribute_value [] = []
attribute_value (c ∷ s) = let rest = attribute_value s in if c == b'"' then [] else c ∷ rest

abbrev pub is_quote : ℕ → Bool
is_quote c = c == b'"'

attribute_value-escape_char :
    (c : ℕ) (s : Text)
    → (c == b'"') ≡ false
    → attribute_value (escape_char c ++ s) ≡ escape_char c ++ attribute_value s
unfolding attribute_value escape_char
attribute_value-escape_char c s h = ground arith

length-escape_char : (c : ℕ) → 0 < length (escape_char c)
unfolding escape_char
length-escape_char c = ground arith

attribute_value-intact :
    (s r : Text) → count is_quote s ≡ 0 → attribute_value (inner_html s ++ b'"' ∷ r) ≡ inner_html s
unfolding inner_html
attribute_value-intact [] r h = unfold attribute_value in refl
attribute_value-intact (c ∷ s) r h =
    let plain : (c == b'"') ≡ false = ground arith in
    rw
      (
        append_assoc (escape_char c) (inner_html s) (b'"' ∷ r),
        attribute_value-escape_char c (inner_html s ++ b'"' ∷ r) plain,
      )
      (ap (λ t. escape_char c ++ t) (attribute_value-intact s r (ground arith)))

attribute_value-cut :
    (s r : Text)
    → 0 < count is_quote s
    → length (attribute_value (inner_html s ++ b'"' ∷ r)) < length (inner_html s)
unfolding inner_html
attribute_value-cut [] r h = elim h [ ]
attribute_value-cut (c ∷ s) r h = elim (Bool-cases (c == b'"')) [
  | inl quote ↦
      let is : c ≡ b'"' = (==_iff c b'"').0 quote in
      rw is (unfold attribute_value escape_char in omega arith)
  | inr plain ↦
      rw
        (
          append_assoc (escape_char c) (inner_html s) (b'"' ∷ r),
          attribute_value-escape_char c (inner_html s ++ b'"' ∷ r) plain,
        )
        (omega (
          arith,
          length-append (escape_char c) (attribute_value (inner_html s ++ b'"' ∷ r)),
          length-append (escape_char c) (inner_html s),
          attribute_value-cut s r (ground arith),
        ))
]

-- Between double quotes an escaped text is the value of the attribute exactly when the text holds
-- no double quote; with one, the attribute ends inside the text.
pub esc-attribute_iff :
    (s r : Text) → (count is_quote s ≡ 0) ↔ (attribute_value (esc s ++ b'"' ∷ r) ≡ esc s)
esc-attribute_iff s r = rw esc-inner_html (attribute_value-intact s r, backward)
  where
    backward : attribute_value (inner_html s ++ b'"' ∷ r) ≡ inner_html s → count is_quote s ≡ 0
    backward e = grind (arith, attribute_value-cut s r, ap length e)
