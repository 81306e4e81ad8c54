-- ===== src/Caddyfile/RoundTrip/Writable.antt =====
-- The keys that `write` quotes so that the lexer reads them back.
use caddy_docker_proxy.Caddyfile.Marshal.{is_line_break_or_quote, is_blank}
use caddy_docker_proxy.Prelude.{
  Bool, false, not, ◌&&◌, [], ◌∷◌, ◌==◌, if◌then◌else◌, Text, contains_any, is_space,
}

-- Whether a backslash at the end waits for a character.
unfoldable pub ends_escaped : Bool → Text → Bool
ends_escaped escaped [] = escaped
ends_escaped escaped (c ∷ cs) = ends_escaped (not escaped && c == b'\\') cs

-- No key of its own: a comment, a quoted word, or a backslash in front.
abbrev pub starts_word : Text → Bool
starts_word [] = false
starts_word (c ∷ cs) = not (c == b'#') && not (c == b'`') && not (c == b'\\')

-- Between quotes of a kind no such quote may stand; a plain word needs no quotes.
unfoldable pub is_writable : Text → Bool
unfolding contains_any ends_escaped is_space
is_writable k =
    if contains_any is_line_break_or_quote k
    then not (contains_any (λ c. c == b'`') k)
    else if contains_any is_blank k
    then not (ends_escaped false k)
    else not (contains_any is_space k) && starts_word k && not (ends_escaped false k)
