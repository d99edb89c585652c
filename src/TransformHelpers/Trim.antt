-- ===== src/TransformHelpers/Trim.antt =====
-- `trim` and the loops over white space: they take off what pads a word, and no more.
use db_query_optimizer.Common.{
  Bool, true, false, not, [], ◌∷◌, ◌++◌, all, ◌≡◌, refl, ap, ◌∙◌, arith,
}
use db_query_optimizer.Common.Text.{Text, is_space}
use db_query_optimizer.TransformHelpers.{skip_spaces, drop_spaces, trim}

-- The first byte is there, and no white space; so is the last.
unfoldable pub starts_word : Text → Bool
starts_word [] = false
starts_word (c ∷ s) = not (is_space c)

unfoldable pub ends_word : Text → Bool
ends_word [] = false
ends_word (c ∷ []) = not (is_space c)
ends_word (c ∷ d ∷ s) = ends_word (d ∷ s)

-- White space alone.
unfoldable pub is_blank : Text → Bool
unfolding all
is_blank s = all is_space s

pub skip_spaces_pad : (pad s : Text) → is_blank pad ≡ true → skip_spaces (pad ++ s) ≡ skip_spaces s
unfolding skip_spaces is_blank all
skip_spaces_pad [] s h = refl
skip_spaces_pad (c ∷ pad) s h = ground (arith, skip_spaces_pad pad s)

pub skip_spaces_word : (s t : Text) → starts_word s ≡ true → skip_spaces (s ++ t) ≡ s ++ t
unfolding skip_spaces starts_word
skip_spaces_word [] t h = cc
skip_spaces_word (c ∷ s) t h = ground arith

drop_spaces_blank : (pad : Text) → is_blank pad ≡ true → drop_spaces pad ≡ []
unfolding drop_spaces is_blank all
drop_spaces_blank [] h = refl
drop_spaces_blank (c ∷ pad) h = ground (arith, drop_spaces_blank pad)

pub drop_spaces_pad : (s pad : Text) → is_blank pad ≡ true → drop_spaces (s ++ pad) ≡ drop_spaces s
unfolding drop_spaces
drop_spaces_pad [] pad h = drop_spaces_blank pad h
drop_spaces_pad (c ∷ s) pad h = rw (drop_spaces_pad s pad h) refl

pub drop_spaces_word : (s : Text) → ends_word s ≡ true → drop_spaces s ≡ s
unfolding drop_spaces ends_word
drop_spaces_word [] h = cc
drop_spaces_word (c ∷ []) h = ground arith
drop_spaces_word (c ∷ d ∷ s) h = ground (arith, drop_spaces_word (d ∷ s) h)

pub ends_word-append : (s t : Text) → ends_word t ≡ true → ends_word (s ++ t) ≡ true
unfolding ends_word
ends_word-append [] t h = h
ends_word-append (c ∷ []) [] h = cc
ends_word-append (c ∷ []) (d ∷ t) h = h
ends_word-append (c ∷ d ∷ s) t h = ends_word-append (d ∷ s) t h

pub starts_word-append : (s t : Text) → starts_word s ≡ true → starts_word (s ++ t) ≡ true
unfolding starts_word
starts_word-append [] t h = cc
starts_word-append (c ∷ s) t h = h

-- Trimming a text that starts and ends without white space and is padded with white space gives
-- that text.
pub trim_lem :
    (pad s pad' : Text)
    → is_blank pad ≡ true
    → starts_word s ≡ true
    → ends_word s ≡ true
    → is_blank pad' ≡ true
    → trim (pad ++ (s ++ pad')) ≡ s
unfolding trim
trim_lem pad s pad' h first last k =
    ap drop_spaces (skip_spaces_pad pad (s ++ pad') h ∙ skip_spaces_word s pad' first)
    ∙ drop_spaces_pad s pad' k
    ∙ drop_spaces_word s last
