-- ===== src/Prelude/Texts.antt =====
-- `str.partition("/")`, without its middle.
use Prim.Native.Char.{code}
use Prim.Native.String.append
use Prim.Native.String.{String, len, slice}
use Prim.Native.String.{◌++◌ as str_append}
use mathlib.Core.Path.{◌≡◌, refl, ap, sym, ◌∙◌}
use mathlib.Core.Bool.{Bool, true, false, false≢true}
use text.Mathlib.Text.{starts_with}
use text.Mathlib.TextPositions.{len-append, starts_with-append, slice-append_right}
use package.gis_vector_map_changes.Prelude.Tests.{eqb, if◌then◌else◌, Bool-cases}
use mathlib.Core.Logic.{inl, inr}

-- the text before the first "/"
unfoldable pub before_slash : String → String
before_slash String.[] = String.[]
before_slash (String.◌∷◌ c s) =
    if eqb (code c) b'/' then String.[] else String.◌∷◌ c (before_slash s)

-- the text behind the first "/"
unfoldable pub after_slash : String → String
after_slash String.[] = String.[]
after_slash (String.◌∷◌ c s) = if eqb (code c) b'/' then s else after_slash s

-- There is a "/" in the text.
abbrev pub has_slash : String → Bool
has_slash String.[] = false
has_slash (String.◌∷◌ c s) = if eqb (code c) b'/' then true else has_slash s

slash_first : (t : String) → str_append "/" t ≡ String.◌∷◌ "/" t
slash_first t = append.cons "/" String.[] t ∙ ap (λ u. String.◌∷◌ "/" u) (append.nil t)

-- A text is cut at its first "/".
pub before_slash-append :
    (s t : String) → has_slash s ≡ false → before_slash (str_append s (str_append "/" t)) ≡ s
unfolding before_slash
before_slash-append String.[] t h = rw (append.nil (str_append "/" t), slash_first t) refl
before_slash-append (String.◌∷◌ c s) t h =
    let cons = append.cons c s (str_append "/" t) in
    elim (Bool-cases (eqb (code c) b'/')) [
      | inl slash ↦ absurd (false≢true (sym h ∙ rw slash refl))
      | inr other ↦
          rw (cons, before_slash, other)
            (ap (λ u. String.◌∷◌ c u) (before_slash-append s t (sym (rw other refl) ∙ h)))
    ]

pub after_slash-append :
    (s t : String) → has_slash s ≡ false → after_slash (str_append s (str_append "/" t)) ≡ t
unfolding after_slash
after_slash-append String.[] t h = rw (append.nil (str_append "/" t), slash_first t) refl
after_slash-append (String.◌∷◌ c s) t h =
    let cons = append.cons c s (str_append "/" t) in
    elim (Bool-cases (eqb (code c) b'/')) [
      | inl slash ↦ absurd (false≢true (sym h ∙ rw slash refl))
      | inr other ↦ rw (cons, after_slash, other) (after_slash-append s t (sym (rw other refl) ∙ h))
    ]

-- `str.removeprefix`
unfoldable pub removeprefix : String → String → String
removeprefix s prefix = if starts_with s prefix then slice s (len prefix) (len s) else s

pub removeprefix-append : (prefix t : String) → removeprefix (str_append prefix t) prefix ≡ t
unfolding removeprefix
removeprefix-append prefix t =
    rw (starts_with-append prefix t, len-append prefix t) (slice-append_right prefix t)
