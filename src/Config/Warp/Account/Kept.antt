-- ===== src/Config/Warp/Account/Kept.antt =====
-- Whether an identity that is answered is kept, and what is left where none is.
use hiddify_core.Prelude.{
  String, ◌≡◌, refl, ap, ◌∙◌, ◌⊎◌, inl, inr, true, Option, none, some, List, [], ◌∷◌, if-elim,
  Result, ok, err, Outcome, done, failed, crashed,
}
use mathlib.Core.Path.{subst}
use hiddify_core.Config.Warp.{Identity, create_identity_only}
use hiddify_core.Config.Warp.Account.{
  Folder, missing, holding, Files, Attempt, decoded, read_file, stated, load_identity, encoded,
  created, save_identity, saved, save_made, create_identity, made_directory, removed, recreate,
  needs_license, with_license, loaded_or_created, load_or_create_identity,
}

abbrev or_else : Identity → Outcome Identity → Identity
or_else j (done i) = i
or_else j _ = j

abbrev peered : Identity → List String → Result Identity
peered i ps = elim ps [ [] ↦ err "identity contains 0 peers" | p ∷ ps ↦ ok i ]

module _ (f : Files) where
  -- The folder holds the identity: it is what the file decodes to, or the file is what it encodes to.
  abbrev pub Holds : Folder → Identity → Type 0
  Holds folder i = (load_identity f folder ≡ ok i) ⊎ (folder ≡ holding (some (f.marshal i)))

  abbrev pub Kept : Outcome Identity × Folder → Type 0
  Kept (done i, folder) = Holds folder i
  Kept (failed e, folder) = Unit
  Kept (crashed, folder) = Unit

  module _ (a : Attempt) where
    saved-Kept :
        (i : Identity) (x : Option String × Folder)
        → (x.0 ≡ none → Holds x.1 i)
        → Kept (saved f a i x)
    saved-Kept i (none, folder) h = h refl
    saved-Kept i (some e, folder) h = tt

    encoded-Holds :
        (i : Identity) (x : Option (String × String))
        → (encoded f a i x).0 ≡ none
        → Holds (encoded f a i x).1 i
    encoded-Holds i none e = inr refl
    encoded-Holds i (some (m, partial)) e = cc

    created-Holds :
        (i : Identity) (folder : Folder) (x : Option String)
        → (created f a i folder x).0 ≡ none
        → Holds (created f a i folder x).1 i
    created-Holds i folder none e = encoded-Holds i a.encode e
    created-Holds i folder (some m) e = cc

    save_identity-Holds :
        (i : Identity) (folder : Folder)
        → (save_identity f a i folder).0 ≡ none
        → Holds (save_identity f a i folder).1 i
    unfolding save_identity
    save_identity-Holds i missing e = cc
    save_identity-Holds i (holding text) e = created-Holds i (holding text) a.create e

    save_made-Kept : (folder : Folder) (x : Outcome Identity) → Kept (save_made f a folder x)
    save_made-Kept folder (done i) = saved-Kept i _ (save_identity-Holds i folder)
    save_made-Kept folder (failed e) = tt
    save_made-Kept folder crashed = tt

    made_directory-Kept :
        (license : String) (x : Option String) → Kept (made_directory f a license x)
    unfolding create_identity
    made_directory-Kept license none =
        save_made-Kept (holding none) (create_identity_only a.outside license)
    made_directory-Kept license (some e) = tt

    removed-Kept : (license : String) (x : Option (String × Folder)) → Kept (removed f a license x)
    removed-Kept license none = made_directory-Kept license a.mkdir_all
    removed-Kept license (some (e, left)) = tt

    recreate-Kept : (license : String) → Kept (recreate f a license)
    unfolding recreate
    recreate-Kept license = removed-Kept license a.remove_all

  with_license-Kept :
      (second : Attempt) (license : String) (x : Outcome Identity × Folder)
      → Kept x
      → Kept (with_license f second license x)
  unfolding with_license
  with_license-Kept second license (done i, folder) h =
      if-elim Kept (needs_license license i) (λ _. recreate-Kept second license) (λ _. h)
  with_license-Kept second license (failed e, folder) h = tt
  with_license-Kept second license (crashed, folder) h = tt

  loaded_or_created-Kept :
      (first : Attempt) (license : String) (folder : Folder) (x : Result Identity)
      → load_identity f folder ≡ x
      → Kept (loaded_or_created f first license folder x)
  loaded_or_created-Kept first license folder (ok i) e = inl e
  loaded_or_created-Kept first license folder (err m) e = recreate-Kept first license

  Kept-at : (i : Identity) (x : Outcome Identity × Folder) → Kept x → x.0 ≡ done i → Holds x.1 i
  Kept-at i (done j, folder) h e = subst (Holds folder) (ap (or_else j) e) h
  Kept-at i (failed m, folder) h e = cc
  Kept-at i (crashed, folder) h e = cc

  module _ (stats : f.stat_error ≡ none) (reads : f.read_error ≡ none) where
    Holds-load :
        (i : Identity) (p : String) (ps : List String) (folder : Folder)
        → f.unmarshal (f.marshal i) ≡ ok i
        → i.peers ≡ p ∷ ps
        → Holds folder i
        → load_identity f folder ≡ ok i
    unfolding load_identity
    Holds-load i p ps folder codec peers (inl e) = e
    Holds-load i p ps folder codec peers (inr e) =
        ap (load_identity f) e
        ∙ (ap (λ x. stated f x (f.marshal i)) stats
            ∙ (ap (λ x. read_file f x (f.marshal i)) reads
                ∙ (ap (decoded f) codec ∙ ap (peered i) peers)))

    -- An identity that LoadOrCreateIdentity answers, loaded or created, is loaded again from the folder
    -- that it leaves, where the file can be read, what the encoder writes of this identity is decoded
    -- to it, and it has a peer.
    pub load_or_create_identity-reloads :
        (first second : Attempt) (license : String) (folder : Folder) (i : Identity) (p : String)
        (ps : List String)
        → (load_or_create_identity f first second license folder).0 ≡ done i
        → f.unmarshal (f.marshal i) ≡ ok i
        → i.peers ≡ p ∷ ps
        → load_identity f (load_or_create_identity f first second license folder).1 ≡ ok i
    unfolding load_or_create_identity
    load_or_create_identity-reloads first second license folder i p ps answer codec peers =
        let x = loaded_or_created f first license folder (load_identity f folder) in
        Holds-load i p ps _ codec peers (
          Kept-at i _
            (with_license-Kept second license x
              (loaded_or_created-Kept first license folder _ refl))
            answer)

  -- Where an identity is loaded, but another license is asked for, and the registration fails, the
  -- error is answered and the old identity is gone: the folder is empty.
  load_or_create_identity-loses :
      (first second : Attempt) (license : String) (folder : Folder) (i : Identity) (e : String)
      → load_identity f folder ≡ ok i
      → needs_license license i ≡ true
      → second.remove_all ≡ none
      → second.mkdir_all ≡ none
      → create_identity_only second.outside license ≡ failed e
      → load_or_create_identity f first second license folder ≡ (failed e, holding none)
  unfolding load_or_create_identity with_license recreate create_identity
  load_or_create_identity-loses first second license folder i e loaded needs removes makes fails =
      rw (loaded, needs, removes, makes, fails) refl
