-- ===== src/Examples/GlobExamples.antt =====
-- src-tauri/src/net.rs and src-tauri/src/model_package.rs: patterns of the code's own tests.
use open_mind_ai.Base.{◌≡◌, refl, ◌&&◌, ◌||◌, not, true, false, ◌++◌}
use open_mind_ai.Base.Text.{text, to_ascii_lowercase}
use open_mind_ai.Glob.{
  wildcard_match, wildcard_lower, bypass_matches, bare_host, bare_pattern, domain_of, has_star,
  split_star, after_first, ends_with,
}
use open_mind_ai.Glob.Suffixes.{matches}
use open_mind_ai.Glob.Wildcard.{wildcard_match-matches}
use open_mind_ai.Glob.Bypass.{bypass_matches-matches}

picks_projector :
    wildcard_match (text "mmproj-*Q8_0*.gguf") (text "mmproj-Qwen2.5-VL-3B-Instruct-Q8_0.gguf")
    ≡ true
unfolding wildcard_match wildcard_lower split_star after_first ends_with
picks_projector = refl

leaves_model :
    wildcard_match (text "mmproj-*Q8_0*.gguf") (text "Qwen2.5-VL-3B-Instruct-Q8_0.gguf") ≡ false
unfolding wildcard_match wildcard_lower split_star after_first ends_with
leaves_model = refl

bypasses_subdomain : bypass_matches (text "api.Example.com") (text " *.example.com") ≡ true
unfolding bypass_matches bare_host bare_pattern ends_with
bypasses_subdomain = refl

keeps_lookalike : bypass_matches (text "notexample.com") (text ".example.com") ≡ false
unfolding bypass_matches bare_host bare_pattern ends_with
keeps_lookalike = refl

wildcard_match-matches_example :
    wildcard_match (text "a*b*b") (text "aBxB")
    ≡ matches (to_ascii_lowercase (text "a*b*b")) (to_ascii_lowercase (text "aBxB"))
wildcard_match-matches_example = wildcard_match-matches (text "a*b*b") (text "aBxB")

bypass_matches-matches_example : bypass_matches (text "api.example.com") (text ".example.com") ≡ (
    matches (domain_of (bare_pattern (text ".example.com"))) (bare_host (text "api.example.com"))
    || (not (has_star (domain_of (bare_pattern (text ".example.com"))))
        && matches
            (text "*." ++ domain_of (bare_pattern (text ".example.com")))
            (bare_host (text "api.example.com"))))
unfolding bare_pattern
bypass_matches-matches_example =
    bypass_matches-matches (text "api.example.com") (text ".example.com") refl refl
