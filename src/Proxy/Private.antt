-- ===== src/Proxy/Private.antt =====
-- How the line of `--private-upstream` is read.
use dnsproxy_rs.Prelude.Text.{
  Text, strip_prefix, split_once, split, split_whitespace, to_ascii_lowercase, ascii_lower,
}
use dnsproxy_rs.Prelude.{ℕ, ◌≡◌, refl, [], ◌∷◌, ◌++◌, map}
use dnsproxy_rs.Proxy.{private_reverse_zones, joined, private_upstream_line}
use dnsproxy_rs.UpstreamConfig.Line.{parts, domains_of, split_rule, split_config_line}

-- The line for a private upstream, which is no empty text, is read as a rule for exactly the private
-- zones, with the upstreams that the text names.
pub split_config_line-private_upstream_line :
    (c : ℕ) (upstream : Text)
    → split_config_line (private_upstream_line (c ∷ upstream))
      ≡ parts
          (split_whitespace (c ∷ upstream))
          (map (λ zone. zone ++ b'.' ∷ []) private_reverse_zones)
unfolding private_upstream_line joined split_config_line split_rule domains_of strip_prefix
    split_once split to_ascii_lowercase ascii_lower
split_config_line-private_upstream_line c upstream = refl
