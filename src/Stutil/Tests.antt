-- ===== src/Stutil/Tests.antt =====
-- Runs of the string tools.
use vfdd.Prelude.{◌≡◌, refl, some, [], ◌∷◌}
use vfdd.Stutil.{
  one_of, skip_over, cut_at, token_next_sep, token_next, is_blank, rm_blank, behind_first,
  behind_last, before_last, unquote, ext_get,
}
use vfdd.Stutil.Blanks.{rm_blank-append}

rm_blank-append_example :
    rm_blank (b' ' ∷ b'a' ∷ b' ' ∷ b'b' ∷ b'\t' ∷ []) ≡ b'a' ∷ b' ' ∷ b'b' ∷ []
unfolding is_blank
rm_blank-append_example =
    rm_blank-append (b' ' ∷ []) b'a' (b' ' ∷ []) b'b' (b'\t' ∷ []) (refl, tt) refl refl (refl, tt)

-- Two tokens, then NULL.
tokens_run :
    token_next (some (b' ' ∷ b'a' ∷ b' ' ∷ b' ' ∷ b'b' ∷ [])) (b' ' ∷ []) (b' ' ∷ [])
    ≡ (some (b'a' ∷ []), some (b'b' ∷ []))
unfolding token_next token_next_sep cut_at skip_over one_of
tokens_run = refl

unquote_run : unquote (b'x' ∷ b'"' ∷ b'a' ∷ b'"' ∷ []) ≡ b'a' ∷ []
unfolding unquote behind_first before_last
unquote_run = refl

ext_get_run : ext_get (b'a' ∷ b'.' ∷ b'b' ∷ b'.' ∷ b'c' ∷ []) ≡ b'c' ∷ []
unfolding ext_get behind_last
ext_get_run = refl
