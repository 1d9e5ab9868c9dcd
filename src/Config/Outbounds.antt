-- ===== src/Config/Outbounds.antt =====
-- The groups that setOutbounds of config/config.go puts around the proxies, and the outbounds that it
-- adds to every configuration.
pub mod Default
use hiddify_core.Prelude.{ℕ, ◌*◌, ◌%◌, String, true, some, List, [], ◌∷◌, ◌++◌, if◌then◌else◌}
use hiddify_core.Config.Text.{contains}
use hiddify_core.Config.Tags.{
  outbound_direct_tag, outbound_bypass_tag, outbound_block_tag, outbound_select_tag,
  outbound_url_test_tag, outbound_dns_tag, outbound_direct_fragment_tag,
}
use hiddify_core.Config.Options.{ConfigOptions}
use hiddify_core.Config.Sing.{Outbound, plain}

-- DurationInSeconds.Duration: nanoseconds, as the pattern of an int64
unfoldable pub duration : ℕ → ℕ
duration seconds = seconds * 1000000000 % 18446744073709551616

unfoldable pub url_test : ConfigOptions → List String → Outbound
unfolding duration
url_test opt tags = record (plain outbound_url_test_tag "urltest") {
  members = tags;
  test = some (record {
    url = opt.url_test.connection_test_url;
    interval = duration opt.url_test.url_test_interval;
    tolerance = 1;
    idle_timeout = duration opt.url_test.url_test_interval * 3 % 18446744073709551616;
  });
}

unfoldable pub default_select : String → List String → String
default_select d [] = d
default_select d (t ∷ ts) = default_select (if contains t "§default§" then "§default§" else d) ts

unfoldable pub selector : List String → Outbound
unfolding default_select
selector tags = record (plain outbound_select_tag "selector") {
  members = outbound_url_test_tag ∷ tags;
  default = default_select outbound_url_test_tag tags;
}

unfoldable pub fixed_outbounds : ConfigOptions → List Outbound
fixed_outbounds opt =
    plain outbound_dns_tag "dns"
    ∷ plain outbound_direct_tag "direct"
    ∷ record (plain outbound_direct_fragment_tag "direct") {
      fragment = some (record {
        enabled = true;
        size = opt.tls_tricks.fragment_size;
        sleep = opt.tls_tricks.fragment_sleep;
      });
    }
    ∷ plain outbound_bypass_tag "direct"
    ∷ plain outbound_block_tag "block"
    ∷ []

-- options.Outbounds, of the proxies' tags and outbounds
unfoldable pub all_outbounds : ConfigOptions → List String → List Outbound → List Outbound
unfolding url_test selector fixed_outbounds
all_outbounds opt tags proxies =
    (selector tags ∷ url_test opt tags ∷ proxies) ++ fixed_outbounds opt
