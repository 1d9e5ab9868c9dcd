-- ===== src/Config/Tags.antt =====
-- The tags of config/config.go.
use hiddify_core.Prelude.{String}

abbrev pub dns_remote_tag : String
dns_remote_tag = "dns-remote"

abbrev pub dns_local_tag : String
dns_local_tag = "dns-local"

abbrev pub dns_direct_tag : String
dns_direct_tag = "dns-direct"

abbrev pub dns_block_tag : String
dns_block_tag = "dns-block"

abbrev pub dns_fake_tag : String
dns_fake_tag = "dns-fake"

abbrev pub dns_tricks_direct_tag : String
dns_tricks_direct_tag = "dns-trick-direct"

abbrev pub outbound_direct_tag : String
outbound_direct_tag = "direct"

abbrev pub outbound_bypass_tag : String
outbound_bypass_tag = "bypass"

abbrev pub outbound_block_tag : String
outbound_block_tag = "block"

abbrev pub outbound_select_tag : String
outbound_select_tag = "select"

abbrev pub outbound_url_test_tag : String
outbound_url_test_tag = "auto"

abbrev pub outbound_dns_tag : String
outbound_dns_tag = "dns-out"

abbrev pub outbound_direct_fragment_tag : String
outbound_direct_fragment_tag = "direct-fragment"

abbrev pub inbound_tun_tag : String
inbound_tun_tag = "tun-in"

abbrev pub inbound_mixed_tag : String
inbound_mixed_tag = "mixed-in"

abbrev pub inbound_dns_tag : String
inbound_dns_tag = "dns-in"
