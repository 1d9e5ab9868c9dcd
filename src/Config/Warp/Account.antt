-- ===== src/Config/Warp/Account.antt =====
-- pkg/warp/account.go: the file that keeps an identity.
pub mod Kept
mod Examples
use hiddify_core.Prelude.{
  String, Bool, not, ◌&&◌, Option, none, some, [], ◌∷◌, ◌==◌, if◌then◌else◌, Result, ok, err,
  Outcome, done, failed, crashed,
}
use hiddify_core.Config.Warp.{Identity, Outside, create_identity_only}

-- The directory at the path, with the text of its identity file.
pub data Folder : Type 0 where
  missing : Folder
  holding : Option String → Folder

-- encoding/json for an identity, the errors of os.Stat and os.ReadFile on a file that is there, and
-- the words for one that is not.
pub record Files : Type 0 where
  pub marshal : Identity → String
  pub unmarshal : String → Result Identity
  pub stat_error : Option String
  pub read_error : Option String
  pub not_found : String

-- What one creation meets: os.RemoveAll that fails leaves a folder, an encoder that fails leaves a
-- text, and the other calls fail or do not.
pub record Attempt : Type 0 where
  pub outside : Outside
  pub remove_all : Option (String × Folder)
  pub mkdir_all : Option String
  pub create : Option String
  pub encode : Option (String × String)
  pub close : Option String

-- The license asked for is not that of the identity.
abbrev pub needs_license : String → Identity → Bool
needs_license license i = not (license == "") && not (i.license == license)

module _ (f : Files) where
  abbrev pub with_peers : Identity → Result Identity
  with_peers i = elim i.peers [ [] ↦ err "identity contains 0 peers" | p ∷ ps ↦ ok i ]

  abbrev pub decoded : Result Identity → Result Identity
  decoded (err e) = err e
  decoded (ok i) = with_peers i

  abbrev pub read_file : Option String → String → Result Identity
  read_file none text = decoded (f.unmarshal text)
  read_file (some e) text = err e

  abbrev pub stated : Option String → String → Result Identity
  stated none text = read_file f.read_error text
  stated (some e) text = err e

  unfoldable pub load_identity : Folder → Result Identity
  load_identity missing = err f.not_found
  load_identity (holding none) = err f.not_found
  load_identity (holding (some text)) = stated f.stat_error text

  module _ (a : Attempt) where
    -- A file that the encoder fails on stays open, with what was written.
    abbrev pub encoded : Identity → Option (String × String) → Option String × Folder
    encoded i none = (a.close, holding (some (f.marshal i)))
    encoded i (some (e, partial)) = (some e, holding (some partial))

    abbrev pub created : Identity → Folder → Option String → Option String × Folder
    created i folder none = encoded i a.encode
    created i folder (some e) = (some e, folder)

    unfoldable pub save_identity : Identity → Folder → Option String × Folder
    save_identity i missing = (some f.not_found, missing)
    save_identity i (holding text) = created i (holding text) a.create

    abbrev pub saved : Identity → Option String × Folder → Outcome Identity × Folder
    saved i (none, folder) = (done i, folder)
    saved i (some e, folder) = (failed e, folder)

    abbrev pub save_made : Folder → Outcome Identity → Outcome Identity × Folder
    save_made folder (done i) = saved i (save_identity i folder)
    save_made folder (failed e) = (failed e, folder)
    save_made folder crashed = (crashed, folder)

    unfoldable pub create_identity : String → Folder → Outcome Identity × Folder
    unfolding save_identity
    create_identity license folder = save_made folder (create_identity_only a.outside license)

    abbrev pub made_directory : String → Option String → Outcome Identity × Folder
    made_directory license none = create_identity license (holding none)
    made_directory license (some e) = (failed e, missing)

    -- RemoveAll, MkdirAll and CreateIdentity
    abbrev pub removed : String → Option (String × Folder) → Outcome Identity × Folder
    removed license none = made_directory license a.mkdir_all
    removed license (some (e, left)) = (failed e, left)

    unfoldable pub recreate : String → Outcome Identity × Folder
    unfolding create_identity
    recreate license = removed license a.remove_all

  unfoldable pub with_license :
      Attempt → String → Outcome Identity × Folder → Outcome Identity × Folder
  unfolding recreate
  with_license second license (done i, folder) =
      if needs_license license i then recreate second license else (done i, folder)
  with_license second license (failed e, folder) = (failed e, folder)
  with_license second license (crashed, folder) = (crashed, folder)

  abbrev pub loaded_or_created :
      Attempt → String → Folder → Result Identity → Outcome Identity × Folder
  loaded_or_created first license folder (ok i) = (done i, folder)
  loaded_or_created first license folder (err e) = recreate first license

  unfoldable pub load_or_create_identity :
      Attempt → Attempt → String → Folder → Outcome Identity × Folder
  unfolding load_identity with_license
  load_or_create_identity first second license folder =
      with_license second license (loaded_or_created first license folder (load_identity folder))
