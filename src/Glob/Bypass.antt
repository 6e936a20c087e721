-- ===== src/Glob/Bypass.antt =====
-- `bypass_matches` of src-tauri/src/net.rs against the reference match.
use open_mind_ai.Base.{
  false, not, ◌&&◌, ◌||◌, [], ◌∷◌, ◌++◌, if◌then◌else◌, ◌≡◌, refl, ◌∙◌, inl, inr, Bool-cases, arith,
}
use open_mind_ai.Base.Text.{Text, text, text_eq, text_eq→eq}
use open_mind_ai.Glob.{
  star, ends_with, glob_match, has_star, domain_of, bypass_matches, bare_host, bare_pattern,
}
use open_mind_ai.Glob.Suffixes.{matches, any_suffix-ext}
use open_mind_ai.Glob.Greedy.{glob_match-matches}
use open_mind_ai.Glob.Wildcard.{matches-literal, matches-any, text_eq-sym}

ends_with-matches :
    (d v : Text) → has_star d ≡ false → ends_with v (46 ∷ d) ≡ matches (star ∷ (46 ∷ d)) v
unfolding ends_with matches
ends_with-matches d v h =
    any_suffix-ext (λ u. text_eq u (46 ∷ d)) (matches (46 ∷ d)) v
      (λ u. text_eq-sym u (46 ∷ d) ∙ matches-literal (46 ∷ d) u h)

domain-matches :
    (d v : Text)
    → (if not (has_star d) then text_eq v d || ends_with v (text "." ++ d) else glob_match d v)
      ≡ (matches d v || (not (has_star d) && matches (text "*." ++ d) v))
domain-matches d v = elim (Bool-cases (has_star d)) [
  | inl e ↦ rw (e, glob_match-matches d v e) (ground arith)
  | inr e ↦ rw (e, text_eq-sym v d, matches-literal d v e, ends_with-matches d v e) refl
]

-- A proxy is bypassed for a host by an entry other than the empty one and `<local>` exactly if the
-- host matches the entry's domain, where a star stands for any text, or if the domain has no star
-- and the host is one of its subdomains. Host and entry are taken without brackets, outer blanks
-- and the case of ASCII letters, and the domain without a leading `*.` or `.`.
pub bypass_matches-matches :
    (host pattern : Text)
    → text_eq (bare_pattern pattern) [] ≡ false
    → text_eq (bare_pattern pattern) (text "<local>") ≡ false
    → let domain = domain_of (bare_pattern pattern) in
      bypass_matches host pattern ≡ (
        matches domain (bare_host host)
        || (not (has_star domain) && matches (text "*." ++ domain) (bare_host host)))
unfolding bypass_matches
bypass_matches-matches host pattern full remote =
    elim (Bool-cases (text_eq (bare_pattern pattern) (text "*"))) [
      | inr e ↦
          rw (full, e, remote) (domain-matches (domain_of (bare_pattern pattern)) (bare_host host))
      | inl e ↦
          let is = text_eq→eq (bare_pattern pattern) (text "*") e in
          rw is (rw (matches-any (bare_host host)) refl)
    ]
