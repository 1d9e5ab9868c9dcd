-- ===== src/Config/Warp/Account/Examples.antt =====
-- The identity file of an empty folder.
use hiddify_core.Prelude.{◌≡◌, refl, none, [], ◌∷◌, ◌==◌, if◌then◌else◌, ok, err}
use hiddify_core.Config.Runs
use hiddify_core.Config.Warp.{Identity, create_identity_only}
use hiddify_core.Config.Warp.Account.{
  missing, Files, Attempt, load_identity, create_identity, save_identity, recreate, with_license,
  load_or_create_identity,
}
use hiddify_core.Config.Warp.Account.Kept.{load_or_create_identity-reloads}

abbrev identity : Identity
identity = record {
  id = "id";
  token = "token";
  license = "new";
  private_key = "private";
  peers = "peer" ∷ [];
  address_v4 = "172.16.0.2";
  address_v6 = "2606::2";
  client_id = "AQID";
}

abbrev files : Files
files = record {
  marshal = λ i. "{}";
  unmarshal = λ s. if s == "{}" then ok identity else err "unexpected end of JSON input";
  stat_error = none;
  read_error = none;
  not_found = "no such file or directory";
}

abbrev online : Attempt
online = record {
  outside = Runs.outside;
  remove_all = none;
  mkdir_all = none;
  create = none;
  encode = none;
  close = none;
}

load_or_create_identity-reloads_example :
    load_identity files (load_or_create_identity files online online "new" missing).1 ≡ ok identity
unfolding load_or_create_identity load_identity with_license recreate create_identity save_identity
    create_identity_only
load_or_create_identity-reloads_example =
    load_or_create_identity-reloads files refl refl online online "new" missing identity "peer" []
      refl refl refl
