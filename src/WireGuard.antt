-- ===== src/WireGuard.antt =====
-- readWireGuardConfig of cmd/cmd_warp.go: the reader of WireGuard's configuration files. The lines are
-- those that bufio.Scanner gives.
pub mod Entries
pub mod Printed
use hiddify_core.Prelude.{
  String, ◌&&◌, List, [], ◌∷◌, ◌++◌, ◌==◌, if◌then◌else◌, Result, ok, err, Outcome, done, failed,
  crashed, ◌>>=◌,
}
use hiddify_core.Config.Text.{
  has_prefix, has_suffix, drop_last, split_first, second_part, trim_space,
}

pub record InterfaceConfig : Type 0 where
  pub private_key : String
  pub dns : String
  pub address : List String

pub record PeerConfig : Type 0 where
  pub public_key : String
  pub allowed_ips : List String
  pub endpoint : String

pub record WireGuardConfig : Type 0 where
  pub interface : InterfaceConfig
  pub peer : PeerConfig

abbrev pub empty_config : WireGuardConfig
empty_config = record {
  interface = record { private_key = ""; dns = ""; address = [] };
  peer = record { public_key = ""; allowed_ips = []; endpoint = "" };
}

-- strings.TrimSpace(strings.SplitN(line, "=", 2)[1])
abbrev pub trimmed : Outcome String → Outcome String
trimmed (done s) = done (trim_space s)
trimmed (failed e) = failed e
trimmed crashed = crashed

abbrev pub value_of : String → Outcome String
value_of line = trimmed (second_part (split_first "=" line))

unfoldable pub parse_interface_config : InterfaceConfig → String → Outcome InterfaceConfig
parse_interface_config c line =
    let value = value_of line in
    if has_prefix line "PrivateKey"
    then value >>= (λ (v : String). done (record c { private_key = v }))
    else if has_prefix line "DNS"
    then value >>= (λ (v : String). done (record c { dns = v }))
    else if has_prefix line "Address"
    then value >>= (λ (v : String). done (record c { address = c.address ++ v ∷ [] }))
    else done c

unfoldable pub parse_peer_config : PeerConfig → String → Outcome PeerConfig
parse_peer_config c line =
    let value = value_of line in
    if has_prefix line "PublicKey"
    then value >>= (λ (v : String). done (record c { public_key = v }))
    else if has_prefix line "AllowedIPs"
    then value >>= (λ (v : String). done (record c { allowed_ips = c.allowed_ips ++ v ∷ [] }))
    else if has_prefix line "Endpoint"
    then value >>= (λ (v : String). done (record c { endpoint = v }))
    else done c

-- The name of a section: line[1 : len(line)-1] without white space around it.
abbrev pub section_name : String → String
section_name String.[] = ""
section_name (String.◌∷◌ c s) = trim_space (drop_last s)

abbrev pub parse_line : String → WireGuardConfig → String → Outcome WireGuardConfig
parse_line section c line =
    if section == "Interface"
    then parse_interface_config c.interface line
      >>= (λ (i : InterfaceConfig). done (record c { interface = i }))
    else if section == "Peer"
    then parse_peer_config c.peer line >>= (λ (p : PeerConfig). done (record c { peer = p }))
    else done c

-- The loop over the lines.
unfoldable pub read_lines : String → WireGuardConfig → List String → Outcome WireGuardConfig
unfolding parse_interface_config parse_peer_config
read_lines section c [] = done c
read_lines section c (line ∷ lines) =
    if has_prefix line "[" && has_suffix line "]"
    then read_lines (section_name line) c lines
    else parse_line section c line >>= (λ (c' : WireGuardConfig). read_lines section c' lines)

-- readWireGuardConfig, of what opening and scanning the file gives.
unfoldable pub read_wire_guard_config : Result (List String) → Outcome WireGuardConfig
unfolding read_lines
read_wire_guard_config (err e) = failed e
read_wire_guard_config (ok lines) = read_lines "" empty_config lines
