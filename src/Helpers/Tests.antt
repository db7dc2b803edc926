-- ===== src/Helpers/Tests.antt =====
-- The helpers of cmd/rabbit.go on concrete texts.
use rabbit_mtcp_ws_socks.Helpers.{
  find, split, split_and_trim, trim_space, split_loop, start_loop, trimmed_parts, end_loop,
  find_loop, std_trim, match_at,
}
use rabbit_mtcp_ws_socks.Prelude.{◌≡◌, refl, some, [], ◌∷◌}
use rabbit_mtcp_ws_socks.Prelude.Strings.{codes, index_of, has_prefix, split_at}
use rabbit_mtcp_ws_socks.Helpers.Search.{find-index_of}

find-index_of_example : find (codes "a, b") (codes ", ") ≡ some 1
unfolding index_of has_prefix
find-index_of_example = find-index_of (codes "a, b") (codes ", ")

split_empty_parts : split (codes ",a,") (codes ",") ≡ some ([] ∷ codes "a" ∷ [] ∷ [])
unfolding split split_loop find find_loop match_at
split_empty_parts = refl

trimmed : trim_space (codes " a b  ") ≡ codes "a b"
unfolding trim_space start_loop end_loop
trimmed = refl

parts : split_and_trim (codes " a, ,b") 44 ≡ codes "a" ∷ codes "b" ∷ []
unfolding split_and_trim trimmed_parts std_trim split_at
parts = refl
