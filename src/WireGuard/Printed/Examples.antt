-- ===== src/WireGuard/Printed/Examples.antt =====
-- A configuration of WireGuard's own documentation.
use hiddify_core.Prelude.{◌≡◌, refl, [], ◌∷◌, ok, done, crashed}
use hiddify_core.Config.Text.{
  trim_left, trim_right, is_space, split_first, has_prefix, strip_prefix,
}
use hiddify_core.WireGuard.{
  WireGuardConfig, empty_config, parse_interface_config, read_lines, read_wire_guard_config,
}
use hiddify_core.WireGuard.Printed.{print, AllTrimmed, read_wire_guard_config-print}

abbrev config : WireGuardConfig
config = record {
  interface = record {
    private_key = "yAnz5TF+lXXJte14tji3zlMNq+hd2rYUIgJBgB3fBmk=";
    dns = "1.1.1.1";
    address = "10.0.0.2/32" ∷ "fd00::2/128" ∷ [];
  };
  peer = record {
    public_key = "xTIBA5rboUvnH4htodjb6e697QjLERt1NAB4mZqp8Dg=";
    allowed_ips = "0.0.0.0/0" ∷ [];
    endpoint = "192.95.5.67:1234";
  };
}

config-AllTrimmed : AllTrimmed config
unfolding trim_left trim_right is_space
config-AllTrimmed = record {
  private_key = refl;
  dns = refl;
  address = (refl, (refl, tt));
  public_key = refl;
  allowed_ips = (refl, tt);
  endpoint = refl;
}

read_wire_guard_config-print_example : read_wire_guard_config (ok (print config)) ≡ done config
read_wire_guard_config-print_example = read_wire_guard_config-print config config-AllTrimmed

-- A key without "=" is read out of range.
without_equals : read_lines "Interface" empty_config ("PrivateKey" ∷ []) ≡ crashed
unfolding read_lines parse_interface_config split_first has_prefix strip_prefix
without_equals = refl
